-- ===== src/Approvals/Masking.antt =====
-- frontend/src/pages/manager/ApproveTransaction/ApproveTransaction.jsx: how much of an account number
-- the page shows.
use hybrid_quantum_cryptogra.Prelude.{
  ◌-◌, ◌≤◌, ◌≡◌, refl, sym, ap, ap₂, ◌∙◌, subst, false, Option, none, some, [], ◌∷◌, ◌++◌,
  append_assoc, length, length-append, take, drop, ltb, if◌then◌else◌, arith,
}
use hybrid_quantum_cryptogra.Js.{Text, lit}

-- `${account.substring(0, 4)}****${account.substring(account.length - 4)}`
masked : Text → Text
masked account = take 4 account ++ (lit "****" ++ drop (length account - 4) account)

-- `!account || account.length < 8` gives the account as it is, the empty and the missing one included.
unfoldable pub mask_account : Option Text → Option Text
unfolding masked
mask_account none = none
mask_account (some account) = if ltb (length account) 8 then some account else some (masked account)

take_prefix : (xs ys : Text) → take (length xs) (xs ++ ys) ≡ xs
take_prefix [] ys = refl
take_prefix (x ∷ xs) ys = ap (λ t. x ∷ t) (take_prefix xs ys)

drop_prefix : (xs ys : Text) → drop (length xs) (xs ++ ys) ≡ ys
drop_prefix [] ys = refl
drop_prefix (x ∷ xs) ys = drop_prefix xs ys

is_long :
    (first middle last : Text)
    → length first ≡ 4
    → length last ≡ 4
    → 8 ≤ length (first ++ (middle ++ last))
is_long first middle last f l =
    omega (arith, length-append first (middle ++ last), length-append middle last, f, l)

drop_middle :
    (first middle last : Text)
    → length last ≡ 4
    → drop (length (first ++ (middle ++ last)) - 4) (first ++ (middle ++ last)) ≡ last
drop_middle first middle last l =
    let shorter : length (first ++ (middle ++ last)) - 4 ≡ length (first ++ middle) = omega (
      arith,
      length-append first (middle ++ last),
      length-append middle last,
      length-append first middle,
      l,
    ) in
    ap₂ (λ n t. drop n t) shorter (sym (append_assoc first middle last))
    ∙ drop_prefix (first ++ middle) last

masked_parts :
    (first middle last : Text)
    → length first ≡ 4
    → length last ≡ 4
    → mask_account (some (first ++ (middle ++ last))) ≡ some (first ++ (lit "****" ++ last))
unfolding mask_account masked
masked_parts first middle last f l =
    let whole = first ++ (middle ++ last) in
    let long : ltb (length whole) 8 ≡ false = ground (arith, is_long first middle last f l) in
    let start : take 4 whole ≡ first =
      subst (λ n. take n whole ≡ first) f (take_prefix first (middle ++ last)) in
    rw long (ap some (ap₂ (λ t u. t ++ (lit "****" ++ u)) start (drop_middle first middle last l)))

-- Two account numbers of eight characters or more that agree in the first four and the last four of
-- them look the same on the page, whatever stands between.
mask_account-hides :
    (first middle middle' last : Text)
    → length first ≡ 4
    → length last ≡ 4
    → mask_account (some (first ++ (middle ++ last)))
      ≡ mask_account (some (first ++ (middle' ++ last)))
mask_account-hides first middle middle' last f l =
    masked_parts first middle last f l ∙ sym (masked_parts first middle' last f l)
