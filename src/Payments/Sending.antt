-- ===== src/Payments/Sending.antt =====
-- frontend/src/pages/customer/CreateTransaction/CreateTransaction.jsx: what the page sends, whatever
-- happens to it before.
use hybrid_quantum_cryptogra.Prelude.{
  ℕ, ◌≤◌, ◌<◌, ◌≡◌, refl, sym, ap, subst, ◌∙◌, true, false, Option, none, some, List, arith, length,
  Bool-cases, Option-cases, inl, inr,
}
use hybrid_quantum_cryptogra.Js.{Text, trim, is_empty, length-trim, pos}
use hybrid_quantum_cryptogra.Payments.{
  FormData, CustomerAccount, Beneficiary, Payload, Page, is_others, final_purpose, sent_purpose,
  has_account, can_submit, validate_form, checks,
}
use hybrid_quantum_cryptogra.Payments.Checks.{AtMost, Holds, IsPayable, validate_form_iff}
use hybrid_quantum_cryptogra.Payments.Handlers.{
  Asked, Holder, Overview, Answer, answered, failed, load_customer_account, load_beneficiaries,
  handle_beneficiary_select, handle_toggle_manual_entry, handle_change, handle_quick_amount,
  handle_submit, finish_transaction, payload_of, handle_confirm_transaction, select_listed,
  select_answered, handle_cancel_confirm, handle_close_receipt, initial_page,
}
use hybrid_quantum_cryptogra.Payments.Steps.{
  beneficiary_answered, Desk, initial_desk, asks, Event, account_loaded, beneficiaries_loaded,
  beneficiary_selected, entry_toggled, field_changed, quick_amount, submitted, confirmed, cancelled,
  receipt_closed, Reach, start, after,
}

-- What may be sent from an account.
pub record IsSound (sent : Payload) (account : Option CustomerAccount) : Type 0 where
  pub receiver : is_empty sent.to_account ≡ false
  pub holder : CustomerAccount
  pub known : account ≡ some holder
  pub value : ℕ
  pub amount : sent.amount ≡ some (pos value)
  pub positive : 0 < value
  pub covered : AtMost value holder.balance
  pub purposed : is_empty sent.purpose ≡ false
  pub short : length sent.purpose ≤ 240

sent_purpose-given :
    (form : FormData)
    → is_empty form.purpose ≡ false
    → (is_others form ≡ true → is_empty (trim form.custom_purpose) ≡ false)
    → is_empty (sent_purpose form) ≡ false
unfolding sent_purpose
sent_purpose-given form given specified = elim (Bool-cases (is_others form)) [
  | inl others ↦ rw others (specified others)
  | inr option ↦ rw option given
]

length-sent_purpose : (form : FormData) → length (sent_purpose form) ≤ length (final_purpose form)
unfolding sent_purpose final_purpose
length-sent_purpose form = elim (Bool-cases (is_others form)) [
  | inl others ↦ rw others (length-trim form.custom_purpose)
  | inr option ↦ rw option (omega arith)
]

some-injective : {a b : Payload} → some a ≡ some b → a ≡ b
some-injective e = cc

has_account-some :
    (account : Option CustomerAccount)
    → has_account account ≡ true
    → (holder : CustomerAccount) × (account ≡ some holder)
unfolding has_account
has_account-some none h = cc
has_account-some (some holder) h = (holder, refl)

module _ {Receipt : Type 0} where
  payload_of-IsSound :
      (p : Page Receipt)
      → IsPayable p
      → has_account p.customer_account ≡ true
      → IsSound (payload_of p) p.customer_account
  unfolding payload_of
  payload_of-IsSound p h shown =
      let (holder, known) = has_account-some p.customer_account shown in
      record {
        receiver = h.receiver;
        holder = holder;
        known = known;
        value = h.value;
        amount = h.amount;
        positive = h.positive;
        covered = subst (Holds h.value) known h.covered;
        purposed = sent_purpose-given p.form_data h.purposed h.specified;
        short = omega (arith, length-sent_purpose p.form_data, h.short);
      }

  -- While the dialog is shown, the form passes the checks and the account is known; an account that is
  -- known was loaded.
  record IsGuarded (p : Page Receipt) : Type 0 where
    valid : p.show_confirm_modal ≡ true → validate_form p ≡ none
    shown : p.show_confirm_modal ≡ true → has_account p.customer_account ≡ true
    loaded : p.loading_account ≡ true → has_account p.customer_account ≡ false

  -- A page whose dialog is closed.
  closed :
      (p : Page Receipt)
      → p.show_confirm_modal ≡ false
      → (p.loading_account ≡ true → has_account p.customer_account ≡ false)
      → IsGuarded p
  closed p hidden loaded = record { valid = λ e. cc; shown = λ e. cc; loaded = loaded }

  load_customer_account-IsGuarded :
      (user : Option Holder) (reply : Answer (Option Overview)) (p : Page Receipt)
      → p.loading_account ≡ true
      → IsGuarded p
      → IsGuarded (load_customer_account user reply p)
  unfolding load_customer_account
  load_customer_account-IsGuarded user reply p loading g = record {
    valid = λ e. cc (g.shown e, g.loaded loading);
    shown = λ e. cc (g.shown e, g.loaded loading);
    loaded = λ e. cc;
  }

  load_beneficiaries-IsGuarded :
      (reply : Answer (Option (List Beneficiary))) (p : Page Receipt)
      → IsGuarded p
      → IsGuarded (load_beneficiaries reply p)
  unfolding load_beneficiaries validate_form checks
  load_beneficiaries-IsGuarded reply p g = record {
    valid = g.valid;
    shown = g.shown;
    loaded = g.loaded;
  }

  -- What the guards read is the same.
  abbrev Kept : Page Receipt → Page Receipt → Type 0
  Kept p q =
      (q.show_confirm_modal ≡ p.show_confirm_modal)
      × (q.customer_account ≡ p.customer_account)
      × (q.loading_account ≡ p.loading_account)

  edited :
      (p q : Page Receipt) → Kept p q → p.show_confirm_modal ≡ false → IsGuarded p → IsGuarded q
  edited p q (modal, account, loading) hidden g =
      closed q (modal ∙ hidden) (λ e. ap has_account account ∙ g.loaded (sym loading ∙ e))

  select_listed-Kept :
      (found : Option Beneficiary) (form : FormData) (p : Page Receipt)
      → Kept p (select_listed found form p)
  unfolding select_listed
  select_listed-Kept none form p = (refl, refl, refl)
  select_listed-Kept (some b) form p = (refl, refl, refl)

  select_answered-Kept :
      (asked : Asked) (reply : Answer Beneficiary) (p : Page Receipt)
      → Kept p (select_answered asked reply p)
  unfolding select_answered
  select_answered-Kept asked (answered b) p = (refl, refl, refl)
  select_answered-Kept asked (failed failure) p = select_listed-Kept _ asked.form_data p

  handle_beneficiary_select-Kept :
      (id : Text) (w : Desk Receipt)
      → Kept w.page (Desk.page (asks (handle_beneficiary_select id w.page) w))
  unfolding handle_beneficiary_select
  handle_beneficiary_select-Kept id w = elim (Bool-cases (is_empty id)) [
    | inl none_chosen ↦ rw none_chosen ((refl, refl, refl))
    | inr chosen ↦ rw chosen ((refl, refl, refl))
  ]

  can_submit-has_account :
      (p : Page Receipt) → can_submit p ≡ true → has_account p.customer_account ≡ true
  unfolding can_submit
  can_submit-has_account p enabled = ground arith

  opened :
      (p : Page Receipt)
      → validate_form p ≡ none
      → has_account p.customer_account ≡ true
      → IsGuarded p
      → IsGuarded (record p { error = none; show_confirm_modal = true })
  unfolding validate_form checks
  opened p passed known g = record { valid = λ e. passed; shown = λ e. known; loaded = g.loaded }

  handle_submit-IsGuarded :
      (p : Page Receipt)
      → p.show_confirm_modal ≡ false
      → can_submit p ≡ true
      → IsGuarded p
      → IsGuarded (handle_submit p)
  unfolding handle_submit
  handle_submit-IsGuarded p hidden enabled g = elim (Option-cases (validate_form p)) [
    | inl passed ↦ rw (passed, handle_submit) (opened p passed (can_submit-has_account p enabled) g)
    | inr (message, refused) ↦ rw (refused, handle_submit) (closed _ hidden g.loaded)
  ]

  handle_close_receipt-IsGuarded :
      (p : Page Receipt) → IsGuarded p → IsGuarded (handle_close_receipt p)
  unfolding handle_close_receipt validate_form checks
  handle_close_receipt-IsGuarded p g = record {
    valid = g.valid;
    shown = g.shown;
    loaded = g.loaded;
  }

  finish_transaction-IsGuarded :
      (user : Option Holder) (reply : Answer Receipt) (overview : Answer (Option Overview))
      (p : Page Receipt)
      → (p.loading_account ≡ true → has_account p.customer_account ≡ false)
      → IsGuarded (finish_transaction user reply overview p)
  unfolding finish_transaction
  finish_transaction-IsGuarded user (answered receipt) overview p loaded = closed _ refl (λ e. cc)
  finish_transaction-IsGuarded user (failed failure) overview p loaded = closed _ refl loaded

  initial-IsGuarded : IsGuarded initial_page
  unfolding initial_page has_account
  initial-IsGuarded = closed _ refl (λ e. refl)

  module _ (user : Option Holder) where
    Event-IsGuarded :
        {w v : Desk Receipt} {sent : Option Payload}
        → Event user ⊥ w sent v
        → IsGuarded w.page
        → IsGuarded v.page
    unfolding handle_confirm_transaction handle_toggle_manual_entry handle_change
        handle_quick_amount handle_cancel_confirm
    Event-IsGuarded {w} (account_loaded reply loading) g =
        load_customer_account-IsGuarded user reply w.page loading g
    Event-IsGuarded {w} (beneficiaries_loaded reply) g = load_beneficiaries-IsGuarded reply w.page g
    Event-IsGuarded {w} (beneficiary_selected id hidden) g =
        edited w.page _ (handle_beneficiary_select-Kept id w) hidden g
    Event-IsGuarded {w} (beneficiary_answered asked reply before later e (inl hidden)) g =
        edited w.page _ (select_answered-Kept asked reply w.page) hidden g
    Event-IsGuarded (beneficiary_answered asked reply before later e (inr overtaken)) g =
        absurd overtaken
    Event-IsGuarded {w} (entry_toggled hidden) g = edited w.page _ (refl, refl, refl) hidden g
    Event-IsGuarded {w} (field_changed change hidden) g =
        edited w.page _ (refl, refl, refl) hidden g
    Event-IsGuarded {w} (quick_amount value hidden) g = edited w.page _ (refl, refl, refl) hidden g
    Event-IsGuarded {w} (submitted hidden enabled) g =
        handle_submit-IsGuarded w.page hidden enabled g
    Event-IsGuarded {w} (confirmed reply overview asked) g =
        finish_transaction-IsGuarded user reply overview _ g.loaded
    Event-IsGuarded (cancelled asked) g = closed _ refl g.loaded
    Event-IsGuarded {w} receipt_closed g = handle_close_receipt-IsGuarded w.page g

    Reach-IsGuarded : {w : Desk Receipt} → Reach user ⊥ w → IsGuarded w.page
    unfolding initial_desk
    Reach-IsGuarded start = initial-IsGuarded
    Reach-IsGuarded (after r event) = Event-IsGuarded event (Reach-IsGuarded r)

    confirmed-IsSound :
        {w v : Desk Receipt} {output : Option Payload} (sent : Payload)
        → Event user ⊥ w output v
        → IsGuarded w.page
        → output ≡ some sent
        → IsSound sent w.page.customer_account
    unfolding handle_confirm_transaction
    confirmed-IsSound {w} sent (confirmed reply overview asked) g made =
        subst (λ payload. IsSound payload w.page.customer_account) (some-injective made)
          (payload_of-IsSound w.page ((validate_form_iff w.page).0 (g.valid asked)) (g.shown asked))
    confirmed-IsSound sent event g made = cc

    -- As long as no answer with a beneficiary comes in while the dialog that asks to confirm is shown:
    -- whatever is sent, after any sequence of events, names a receiver, an amount above zero that the
    -- balance of the account that was loaded holds, and a purpose of 1 to 240 units.
    pub Event-IsSound :
        (w v : Desk Receipt) (sent : Payload)
        → Reach user ⊥ w
        → Event user ⊥ w (some sent) v
        → IsSound sent w.page.customer_account
    Event-IsSound w v sent r event = confirmed-IsSound sent event (Reach-IsGuarded r) refl
