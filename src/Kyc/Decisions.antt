-- ===== src/Kyc/Decisions.antt =====
-- frontend/src/pages/manager/KYCVerification/KYCVerification.jsx: which decisions are sent.
use hybrid_quantum_cryptogra.Prelude.{
  ◌≡◌, inl, inr, refl, false, Option, none, some, List, ◌++◌, All, All-append, Bool-cases,
}
use hybrid_quantum_cryptogra.Js.{Text, trim, is_empty}
use hybrid_quantum_cryptogra.Answers.{Answer, answered, failed}
use hybrid_quantum_cryptogra.Answers.Waiting.{World, sends, shows, Reach, Reach_kept}
use hybrid_quantum_cryptogra.Kyc.{
  Customer, Action, verify, reject, Modal, Page, Request, listing, statistics, details, verifying,
  rejecting, load_customers, load_customer_details, handle_verify, handle_reject, verified,
  rejected, confirm, confirm_modal,
}
use hybrid_quantum_cryptogra.Kyc.Steps.{
  Desk, initial_desk, Event, refreshes, filters, searches, selects, closes, decides_listed,
  decides_shown, enters, cancels, confirms, lists, counts, tells, verifies, rejects,
}

-- A rejection has a reason that is not blank.
abbrev pub IsReasoned : Request → Type 0
IsReasoned (listing status) = Unit
IsReasoned statistics = Unit
IsReasoned (details id) = Unit
IsReasoned (verifying id remarks) = Unit
IsReasoned (rejecting id reason) = is_empty (trim reason) ≡ false

module _ {Statistics : Type 0} where
  sends-IsReasoned :
      (r : Page Statistics × List Request) (w : Desk Statistics)
      → All IsReasoned w.sent
      → All IsReasoned r.1
      → All IsReasoned (World.sent (sends r w))
  unfolding sends
  sends-IsReasoned (p, requests) w h fine = All-append IsReasoned requests w.sent fine h

  reject-IsReasoned : (id : Text) (p : Page Statistics) → All IsReasoned (handle_reject id p).1
  unfolding handle_reject
  reject-IsReasoned id p = elim (Bool-cases (is_empty (trim p.reason))) [
    | inl blank ↦ rw (blank, handle_reject) tt
    | inr given ↦ rw (given, handle_reject) (given, tt)
  ]

  modal-IsReasoned :
      (action : Action) (m : Modal) (p : Page Statistics)
      → m.action ≡ action
      → All IsReasoned (confirm_modal (some m) p).1
  unfolding confirm_modal handle_verify
  modal-IsReasoned verify m p e = rw (e, confirm_modal) (tt, tt)
  modal-IsReasoned reject m p e = rw (e, confirm_modal) (reject-IsReasoned m.customer.id p)

  confirm-IsReasoned :
      (modal : Option Modal) (p : Page Statistics) → All IsReasoned (confirm_modal modal p).1
  unfolding confirm_modal
  confirm-IsReasoned none p = tt
  confirm-IsReasoned (some m) p = modal-IsReasoned m.action m p refl

  verified-IsReasoned :
      (reply : Answer (Unit {0})) (p : Page Statistics) → All IsReasoned (verified reply p).1
  unfolding verified load_customers
  verified-IsReasoned (answered done) p = (tt, (tt, tt))
  verified-IsReasoned (failed message) p = tt

  rejected-IsReasoned :
      (reply : Answer (Unit {0})) (p : Page Statistics) → All IsReasoned (rejected reply p).1
  unfolding rejected load_customers
  rejected-IsReasoned (answered done) p = (tt, (tt, tt))
  rejected-IsReasoned (failed message) p = tt

  module _ (Told : Text → Answer Customer → Type 0) where
    Event-IsReasoned :
        (w v : Desk Statistics) → Event Told w v → All IsReasoned w.sent → All IsReasoned v.sent
    unfolding shows load_customers load_customer_details confirm
    Event-IsReasoned w v refreshes h = sends-IsReasoned _ w h (tt, (tt, tt))
    Event-IsReasoned w v (filters status) h = sends-IsReasoned _ w h (tt, (tt, tt))
    Event-IsReasoned w v (searches query) h = h
    Event-IsReasoned w v (selects c bare listed) h = sends-IsReasoned _ w h (tt, tt)
    Event-IsReasoned w v closes h = h
    Event-IsReasoned w v (decides_listed action c bare listed pending) h = h
    Event-IsReasoned w v (decides_shown action c found selected shown pending) h = h
    Event-IsReasoned w v (enters text) h = h
    Event-IsReasoned w v cancels h = h
    Event-IsReasoned w v confirms h =
        sends-IsReasoned _ w h (confirm-IsReasoned w.page.action_modal w.page)
    Event-IsReasoned w v (lists status reply before later e) h = h
    Event-IsReasoned w v (counts reply before later e) h = h
    Event-IsReasoned w v (tells id reply before later told e) h = h
    Event-IsReasoned w v (verifies id remarks reply before later e) h =
        sends-IsReasoned _ (record w { waiting = before ++ later }) h
          (verified-IsReasoned reply w.page)
    Event-IsReasoned w v (rejects id reason reply before later e) h =
        sends-IsReasoned _ (record w { waiting = before ++ later }) h
          (rejected-IsReasoned reply w.page)

    -- Whatever happens on the page from its start, and in whatever order the answers come in: no customer is
    -- rejected without a reason that is not blank.
    pub Reach-IsReasoned :
        {w : Desk Statistics} → Reach (Event Told) initial_desk w → All IsReasoned w.sent
    unfolding initial_desk
    Reach-IsReasoned r =
        Reach_kept (Event Told) (λ w. All IsReasoned w.sent) (λ w v e. Event-IsReasoned w v e) tt r
