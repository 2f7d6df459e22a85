-- ===== src/Accounts/Limits.antt =====
-- frontend/src/pages/manager/ManagerCustomers/ManagerCustomers.jsx: what a manager can ask for.
use hybrid_quantum_cryptogra.Prelude.{
  ◌≡◌, ◌⊎◌, inl, inr, refl, false, Option, none, some, List, ◌++◌, All, All-append, arith,
  Bool-cases,
}
use hybrid_quantum_cryptogra.Js.{Text, lit, is_empty}
use hybrid_quantum_cryptogra.Answers.{Answer, answered, failed}
use hybrid_quantum_cryptogra.Accounts.{
  Account, Page, Request, listing, statistics, details, updating, forwarding, initial_page,
  load_accounts, accounts_loaded, handle_view_details, details_loaded, handle_status_change,
  change_selected, status_changed, handle_forward_for_review, forward_selected, forwarded,
  open_status_modal, open_forward_modal, empty_change, empty_forward,
}
use hybrid_quantum_cryptogra.Answers.Waiting.{sends, shows, Reach, Reach_kept}
use hybrid_quantum_cryptogra.Accounts.Steps.{
  Desk, Event, Status, unselected, active, limited, status_text, Priority, normal, priority_text,
  initial_world, loads, filters, searches, sorts, views, closes, opens_change, opens_forward,
  picks_status, gives_reason, picks_priority, explains, cancels_change, cancels_forward,
  confirms_change, confirms_forward, lists, tells, updates, forwards,
}

-- A request within what a manager may ask for: an account is marked as active or limited, and it is
-- forwarded with a reason and one of the four priorities.
abbrev pub IsLimited : Request → Type 0
IsLimited (listing status account_type) = Unit
IsLimited statistics = Unit
IsLimited (details id) = Unit
IsLimited (updating id status reason) = (status ≡ lit "ACTIVE") ⊎ (status ≡ lit "LIMITED")
IsLimited (forwarding id reason priority) =
    (is_empty reason ≡ false) × ((chosen : Priority) × (priority ≡ priority_text chosen))

picked_status :
    (status : Status) (text : Text)
    → text ≡ status_text status
    → is_empty text ≡ false
    → (text ≡ lit "ACTIVE") ⊎ (text ≡ lit "LIMITED")
unfolding is_empty
picked_status unselected text e given = ground arith
picked_status active text e given = inl e
picked_status limited text e given = inr e

module _ {Statistics : Type 0} where
  -- What the dialogs hold was picked from their lists.
  abbrev pub IsPicked : Page Statistics → Type 0
  IsPicked p =
      ((status : Status) × (p.status_change_data.status ≡ status_text status))
      × ((priority : Priority) × (p.forward_data.priority ≡ priority_text priority))

  -- What a handler gives.
  abbrev IsFine : Page Statistics × List Request → Type 0
  IsFine (p, requests) = IsPicked p × All IsLimited requests

  selected_change-IsFine :
      (c : Option Account) (p : Page Statistics)
      → IsPicked p
      → is_empty p.status_change_data.status ≡ false
      → IsFine (change_selected c p.status_change_data p)
  unfolding change_selected
  selected_change-IsFine none p picked given = (picked, tt)
  selected_change-IsFine (some c) p ((status, e), priority) given =
      (((status, e), priority), (picked_status status _ e given, tt))

  change-IsFine : (p : Page Statistics) → IsPicked p → IsFine (handle_status_change p)
  unfolding handle_status_change
  change-IsFine p picked = elim (Bool-cases (is_empty p.status_change_data.status)) [
    | inl missing ↦ rw (missing, handle_status_change) (picked, tt)
    | inr given ↦
        rw (given, handle_status_change) (selected_change-IsFine p.selected_customer p picked given)
  ]

  selected_forward-IsFine :
      (c : Option Account) (p : Page Statistics)
      → IsPicked p
      → is_empty p.forward_data.reason ≡ false
      → IsFine (forward_selected c p.forward_data p)
  unfolding forward_selected
  selected_forward-IsFine none p picked given = (picked, tt)
  selected_forward-IsFine (some c) p (status, chosen) given =
      ((status, chosen), ((given, chosen), tt))

  forward-IsFine : (p : Page Statistics) → IsPicked p → IsFine (handle_forward_for_review p)
  unfolding handle_forward_for_review
  forward-IsFine p picked = elim (Bool-cases (is_empty p.forward_data.reason)) [
    | inl missing ↦ rw (missing, handle_forward_for_review) (picked, tt)
    | inr given ↦
        rw (given, handle_forward_for_review)
          (selected_forward-IsFine p.selected_customer p picked given)
  ]

  status_changed-IsFine :
      (status : Text) (reply : Answer (Unit {0})) (p : Page Statistics)
      → IsPicked p
      → IsFine (status_changed status reply p)
  unfolding status_changed load_accounts empty_change
  status_changed-IsFine status (answered done) p (picked, chosen) =
      (((unselected, refl), chosen), (tt, (tt, tt)))
  status_changed-IsFine status (failed message) p picked = (picked, tt)

  forwarded-IsFine :
      (reply : Answer (Unit {0})) (p : Page Statistics) → IsPicked p → IsFine (forwarded reply p)
  unfolding forwarded load_accounts empty_forward
  forwarded-IsFine (answered done) p (picked, chosen) = ((picked, (normal, refl)), (tt, (tt, tt)))
  forwarded-IsFine (failed message) p picked = (picked, tt)

  loaded-IsPicked :
      (reply : Answer (List Account × Statistics)) (p : Page Statistics)
      → IsPicked p
      → IsPicked (accounts_loaded reply p)
  unfolding accounts_loaded
  loaded-IsPicked (answered (found, counted)) p picked = picked
  loaded-IsPicked (failed message) p picked = picked

  told-IsPicked :
      (reply : Answer Account) (p : Page Statistics)
      → IsPicked p
      → IsPicked (details_loaded reply p)
  unfolding details_loaded
  told-IsPicked (answered found) p picked = picked
  told-IsPicked (failed message) p picked = picked

  -- The requests that have been sent are within the limits, and the dialogs hold what was picked.
  abbrev pub IsWithin : Desk Statistics → Type 0
  IsWithin w = IsPicked w.page × All IsLimited w.sent

  sends-IsWithin :
      (r : Page Statistics × List Request) (w : Desk Statistics)
      → All IsLimited w.sent
      → IsFine r
      → IsWithin (sends r w)
  unfolding sends
  sends-IsWithin (p, requests) w h (picked, fine) =
      (picked, All-append IsLimited requests w.sent fine h)

  module _ {Told : Text → Answer Account → Type 0} where
    Event-IsWithin : {w v : Desk Statistics} → Event Told w v → IsWithin w → IsWithin v
    unfolding shows load_accounts handle_view_details open_status_modal open_forward_modal
        empty_change empty_forward
    Event-IsWithin {w} loads (p, h) = sends-IsWithin _ w h (p, (tt, (tt, tt)))
    Event-IsWithin {w} (filters status account_type) (p, h) =
        sends-IsWithin _ w h (p, (tt, (tt, tt)))
    Event-IsWithin (searches query) h = h
    Event-IsWithin (sorts config) h = h
    Event-IsWithin {w} (views id bare) (p, h) = sends-IsWithin _ w h (p, (tt, tt))
    Event-IsWithin (closes c shown) h = h
    Event-IsWithin (opens_change c shown allowed) ((p, q), h) = (((unselected, refl), q), h)
    Event-IsWithin (opens_forward c shown) ((p, q), h) = ((p, (normal, refl)), h)
    Event-IsWithin (picks_status status) ((p, q), h) = (((status, refl), q), h)
    Event-IsWithin (gives_reason reason) h = h
    Event-IsWithin (picks_priority priority) ((p, q), h) = ((p, (priority, refl)), h)
    Event-IsWithin (explains reason) h = h
    Event-IsWithin cancels_change h = h
    Event-IsWithin cancels_forward h = h
    Event-IsWithin {w} (confirms_change able shown covered) (p, h) =
        sends-IsWithin _ w h (change-IsFine w.page p)
    Event-IsWithin {w} (confirms_forward able shown covered) (p, h) =
        sends-IsWithin _ w h (forward-IsFine w.page p)
    Event-IsWithin {w} (lists status account_type reply before later e) (p, h) =
        (loaded-IsPicked reply w.page p, h)
    Event-IsWithin {w} (tells id reply before later told e) (p, h) =
        (told-IsPicked reply w.page p, h)
    Event-IsWithin {w} (updates id status reason reply before later e) (p, h) =
        sends-IsWithin _ (record w { waiting = before ++ later }) h
          (status_changed-IsFine status reply w.page p)
    Event-IsWithin {w} (forwards id reason priority reply before later e) (p, h) =
        sends-IsWithin _ (record w { waiting = before ++ later }) h
          (forwarded-IsFine reply w.page p)

    -- Whatever happens on the page from its start, and in whatever order the answers come in: a manager marks
    -- accounts as active or limited only, and forwards them only with a reason and one of the priorities.
    pub Reach-IsLimited :
        {w : Desk Statistics} → Reach (Event Told) initial_world w → All IsLimited w.sent
    unfolding initial_world initial_page empty_change empty_forward
    Reach-IsLimited r =
        (Reach_kept (Event Told) IsWithin (λ w v e. Event-IsWithin e)
          (((unselected, refl), (normal, refl)), tt) r).1
