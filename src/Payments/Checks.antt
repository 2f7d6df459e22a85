-- ===== src/Payments/Checks.antt =====
-- frontend/src/pages/customer/CreateTransaction/CreateTransaction.jsx: which forms pass `validateForm`.
use hybrid_quantum_cryptogra.Prelude.{
  ℕ, ◌≤◌, ◌<◌, ◌≡◌, ◌↔◌, refl, ap, subst, ◌∙◌, Bool, true, false, ◌&&◌, Option, none, some, List,
  [], ◌∷◌, All, arith, length, ltb, String,
}
use hybrid_quantum_cryptogra.Js.{Text, trim, is_empty, ℤ, pos, negsuc, gtb}
use hybrid_quantum_cryptogra.Validators.{is_required, validate_amount}
use hybrid_quantum_cryptogra.Payments.{
  CustomerAccount, Page, is_others, final_purpose, complaint, first_message, exceeds, checks,
  validate_form,
}

abbrev pub AtMost : ℕ → ℤ → Type 0
AtMost a (pos b) = a ≤ b
AtMost a (negsuc b) = ⊥

-- The balance holds an amount; where the account is not known, nothing is said.
abbrev pub Holds : ℕ → Option CustomerAccount → Type 0
Holds a none = Unit
Holds a (some account) = AtMost a account.balance

-- What a form must be to be sent.
pub record IsPayable {Receipt : Type 0} (p : Page Receipt) : Type 0 where
  pub receiver : is_empty (trim p.form_data.to_account) ≡ false
  pub named :
      p.use_manual_entry ≡ true → is_empty (trim p.form_data.manual_beneficiary_name) ≡ false
  pub bank : p.use_manual_entry ≡ true → is_empty (trim p.form_data.manual_bank_name) ≡ false
  pub value : ℕ
  pub amount : p.form_data.amount ≡ some (pos value)
  pub positive : 0 < value
  pub covered : Holds value p.customer_account
  pub purposed : is_empty p.form_data.purpose ≡ false
  pub specified : is_others p.form_data ≡ true → is_empty (trim p.form_data.custom_purpose) ≡ false
  pub short : length (final_purpose p.form_data) ≤ 240

first_message_iff :
    (made : List (Option Text)) → (first_message made ≡ none) ↔ All (λ check. check ≡ none) made
unfolding first_message
first_message_iff [] = (λ h. tt, λ h. refl)
first_message_iff (some message ∷ rest) = (λ h. cc, λ h. cc)
first_message_iff (none ∷ rest) =
    let (onto, back) = first_message_iff rest in (λ h. (refl, onto h), λ h. back h.1)

complaint_iff :
    (failed : Bool) (message : String) → (complaint failed message ≡ none) ↔ (failed ≡ false)
unfolding complaint
complaint_iff failed message = ground arith

both_iff : (a b : Bool) → ((a && b) ≡ false) ↔ (a ≡ true → b ≡ false)
both_iff true b = (λ h e. h, λ h. h refl)
both_iff false b = (λ h. λ e. cc, λ h. refl)

validate_amount-none :
    (amount : Option ℤ)
    → validate_amount amount ≡ none
    → (n : ℕ) × (amount ≡ some (pos n)) × (0 < n)
unfolding validate_amount
validate_amount-none none h = cc
validate_amount-none (some (negsuc n)) h = cc
validate_amount-none (some (pos n)) h = (n, refl, ground arith)

validate_amount-pos : (n : ℕ) → 0 < n → validate_amount (some (pos n)) ≡ none
unfolding validate_amount
validate_amount-pos n h = ground arith

gtb_iff : (n : ℕ) (balance : ℤ) → (gtb (pos n) balance ≡ false) ↔ AtMost n balance
gtb_iff n (pos b) = ground arith
gtb_iff n (negsuc b) = (λ h. cc, λ h. absurd h)

exceeds_iff :
    (n : ℕ) (account : Option CustomerAccount)
    → (exceeds (some (pos n)) account ≡ false) ↔ Holds n account
unfolding exceeds
exceeds_iff n none = (λ h. tt, λ h. refl)
exceeds_iff n (some account) = gtb_iff n account.balance

is_required_iff :
    (value name : Text) → (is_required (some value) name ≡ none) ↔ (is_empty (trim value) ≡ false)
unfolding is_required
is_required_iff value name = ground arith

length_iff : (n : ℕ) → (ltb 240 n ≡ false) ↔ (n ≤ 240)
length_iff n = ground arith

module _ {Receipt : Type 0} (p : Page Receipt) where
  open p.form_data use {
    to_account, amount, purpose, custom_purpose, manual_beneficiary_name, manual_bank_name,
  }

  passed : validate_form p ≡ none → IsPayable p
  unfolding validate_form checks
  passed h =
      let (receiver, (named, (bank, (given, (purposed, (specified, (short, (covered, end)))))))) =
        (first_message_iff (checks p)).0 h in
      let (n, value, positive) = validate_amount-none amount given in
      record {
        receiver = (is_required_iff to_account _).0 receiver;
        named = (both_iff _ _).0 ((complaint_iff _ _).0 named);
        bank = (both_iff _ _).0 ((complaint_iff _ _).0 bank);
        value = n;
        amount = value;
        positive = positive;
        covered = (exceeds_iff n p.customer_account).0 (
            subst (λ a. exceeds a p.customer_account ≡ false) value
              ((complaint_iff _ _).0 covered));
        purposed = (complaint_iff _ _).0 purposed;
        specified = (both_iff _ _).0 ((complaint_iff _ _).0 specified);
        short = (length_iff _).0 ((complaint_iff _ _).0 short);
      }

  passes : IsPayable p → validate_form p ≡ none
  unfolding validate_form checks
  passes h = (first_message_iff (checks p)).1 (
    (is_required_iff to_account _).1 h.receiver,
    (
      (complaint_iff _ _).1 ((both_iff _ _).1 h.named),
      (
        (complaint_iff _ _).1 ((both_iff _ _).1 h.bank),
        (
          ap validate_amount h.amount ∙ validate_amount-pos h.value h.positive,
          (
            (complaint_iff _ _).1 h.purposed,
            (
              (complaint_iff _ _).1 ((both_iff _ _).1 h.specified),
              (
                (complaint_iff _ _).1 ((length_iff _).1 h.short),
                (
                  (complaint_iff _ _).1 (
                      ap (λ a. exceeds a p.customer_account) h.amount
                      ∙ (exceeds_iff h.value p.customer_account).1 h.covered),
                  tt,
                ),
              ),
            ),
          ),
        ),
      ),
    ),
  )

  -- A form passes the checks exactly when it names a receiver (with a name and a bank, where these are
  -- entered by hand), an amount above zero that the balance of the account, if it is known, holds, and a
  -- purpose of at most 240 units, which is specified where it is "Others".
  pub validate_form_iff : (validate_form p ≡ none) ↔ IsPayable p
  validate_form_iff = (passed, passes)
