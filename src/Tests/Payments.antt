-- ===== src/Tests/Payments.antt =====
-- CreateTransaction.jsx at concrete inputs: a customer with a balance of 100 sends 70.
use hybrid_quantum_cryptogra.Prelude.{◌≡◌, refl, ◌↔◌, true, false, Option, none, some, [], ◌∷◌, ℕ}
use hybrid_quantum_cryptogra.Js.{lit, text_eq, trim, is_empty, is_space, pos}
use hybrid_quantum_cryptogra.Validators.{is_required, validate_amount}
use hybrid_quantum_cryptogra.Payments.{
  Beneficiary, Page, Payload, can_submit, validate_form, complaint, is_others, final_purpose,
}
use hybrid_quantum_cryptogra.Payments.Checks.{IsPayable, validate_form_iff}
use hybrid_quantum_cryptogra.Payments.Handlers.{
  Holder, Overview, Answer, answered, failed, initial_page, load_customer_account, handle_change,
  handle_submit, handle_confirm_transaction, Change,
}
use hybrid_quantum_cryptogra.Payments.Steps.{
  Desk, initial_desk, Event, account_loaded, field_changed, submitted, confirmed, Reach, start,
  after,
}
use hybrid_quantum_cryptogra.Payments.Sending.{IsSound, Event-IsSound}

abbrev ann : Option Holder
ann = some (record { username = some (lit "ann"); account_number = none; balance = none })

abbrev overview : Answer (Option Overview)
overview = answered (
    some (record {
      accounts = some (record { account_number = lit "ACC1"; balance = some (pos 100) } ∷ []);
      account_balance = none;
    }))

abbrev refusal : Answer ℕ
refusal = failed (record { response_message = none; message = some (lit "Network Error") })

abbrev first : Page ℕ
first = initial_page

abbrev loaded : Page ℕ
loaded = load_customer_account ann overview first

abbrev addressed : Page ℕ
addressed = handle_change (Change.to_account (lit " ACC2 ")) loaded

abbrev priced : Page ℕ
priced = handle_change (Change.amount (some (pos 70))) addressed

abbrev purposed : Page ℕ
purposed = handle_change (Change.purpose (lit "Others")) priced

abbrev filled : Page ℕ
filled = handle_change (Change.custom_purpose (lit "rent ")) purposed

abbrev asked : Page ℕ
asked = handle_submit filled

payments : Unit {0}
unfolding load_customer_account initial_page handle_change handle_submit validate_form complaint
    can_submit handle_confirm_transaction text_eq lit trim is_space is_empty is_others is_required
    validate_amount final_purpose
payments = tt

enabled : can_submit filled ≡ true
unfolding payments
enabled = refl

hidden : filled.show_confirm_modal ≡ false
unfolding payments
hidden = refl

shown : asked.show_confirm_modal ≡ true
unfolding payments
shown = refl

loading : first.loading_account ≡ true
unfolding payments
loading = refl

passed : validate_form filled ≡ none
unfolding payments
passed = refl

too_much :
    validate_form (handle_change (Change.amount (some (pos 101))) filled)
    ≡ some (lit "Insufficient balance")
unfolding payments
too_much = refl

still_hidden :
    (loaded.show_confirm_modal ≡ false)
    × (addressed.show_confirm_modal ≡ false)
    × (priced.show_confirm_modal ≡ false)
    × (purposed.show_confirm_modal ≡ false)
unfolding payments
still_hidden = (refl, refl, refl, refl)

abbrev at : Page ℕ → Desk ℕ
at p = record { page = p; waiting = [] }

reached : Reach ann ⊥ (at filled)
unfolding initial_desk
reached =
    after
      (after
        (after
          (after (after start (account_loaded overview loading))
            (field_changed (Change.to_account (lit " ACC2 ")) still_hidden.0))
          (field_changed (Change.amount (some (pos 70))) still_hidden.1))
        (field_changed (Change.purpose (lit "Others")) still_hidden.2))
      (field_changed (Change.custom_purpose (lit "rent ")) still_hidden.3)

reached_dialog : Reach ann ⊥ (at asked)
reached_dialog = after reached (submitted hidden enabled)

abbrev left : Page ℕ
left = (handle_confirm_transaction ann refusal overview asked).0

abbrev rent : Payload
rent = record { to_account = lit "ACC2"; amount = some (pos 70); purpose = lit "rent" }

sent : (handle_confirm_transaction ann refusal overview asked).1 ≡ rent
unfolding payments
sent = refl

confirmation :
    Event ann ⊥
      (at asked)
      (some (handle_confirm_transaction ann refusal overview asked).1)
      (at left)
confirmation = confirmed refusal overview shown

Event-IsSound_example :
    IsSound (handle_confirm_transaction ann refusal overview asked).1 asked.customer_account
Event-IsSound_example = Event-IsSound ann (at asked) (at left) _ reached_dialog confirmation

abbrev zoe : Beneficiary
zoe = record {
  id = lit "5";
  account_number = lit "ACC9";
  beneficiary_name = lit "Zoe";
  bank_name = lit "Bank";
}

validate_form_iff_example : (validate_form filled ≡ none) ↔ IsPayable filled
validate_form_iff_example = validate_form_iff filled

others : filled.form_data.purpose ≡ lit "Others"
unfolding payments
others = refl
