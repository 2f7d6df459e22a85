-- ===== src/Js/Exceptions.antt =====
-- Exceptions: a call returns a value, or throws.
use hybrid_quantum_cryptogra.Prelude.{
  ◌≡◌, ◌≢◌, ap, ◌∙◌, ◌⊎◌, inl, inr, refl, ◌↔◌, Bool, true, false, List, [], ◌∷◌, arith, All,
}
use mathlib.Core.List.{Memᴰ}
use hybrid_quantum_cryptogra.Js.Strings.{Text}

-- A `TypeError` of the language, or an `Error` with its message.
pub data Thrown : Type 0 where
  type_error : Thrown
  error : Text → Thrown

pub data Result {ℓ} (A : Type ℓ) : Type ℓ where
  ok : A → Result A
  throw : Thrown → Result A

-- What follows a call runs if the call returned.
infixl 5 ◌>>=◌ ◌>>◌
abbrev pub ◌>>=◌ {κ ℓ} :
    {B : Type κ} {A : Type ℓ} → (call : Result A) → (next : A → Result B) → Result B
throw reason >>= next = throw reason
ok value >>= next = next value

abbrev pub ◌>>◌ {κ} : {B : Type κ} → (call : Result (Unit {0})) → (next : Result B) → Result B
call >> next = call >>= λ done. next

pub Result-cases {ℓ} :
    {A : Type ℓ} (r : Result A) → ((a : A) × (r ≡ ok a)) ⊎ ((t : Thrown) × (r ≡ throw t))
Result-cases (ok a) = inl (a, refl)
Result-cases (throw t) = inr (t, refl)

pub ok-injective {ℓ} : {A : Type ℓ} {a b : A} → ok a ≡ ok b → a ≡ b
ok-injective h = cc

pub throw-ne-ok {ℓ} : {A : Type ℓ} {t : Thrown} {a : A} → throw t ≢ ok a
throw-ne-ok h = cc

-- Two calls in a row that returned: the first one did, and the second one with its value.
pub >>=-eq-ok {κ ℓ} :
    {B : Type κ} {A : Type ℓ} (call : Result A) (next : A → Result B) {result : B}
    → (call >>= next) ≡ ok result
    → (value : A) × (call ≡ ok value) × (next value ≡ ok result)
>>=-eq-ok (throw reason) next returned = cc
>>=-eq-ok (ok value) next returned = (value, refl, returned)

-- A call that returns is followed by what comes next.
pub >>=_ok {κ ℓ} :
    {B : Type κ} {A : Type ℓ} {call : Result A} (next : A → Result B) {value : A}
    {result : Result B}
    → call ≡ ok value
    → next value ≡ result
    → (call >>= next) ≡ result
>>=_ok next returned rest = ap (λ r. r >>= next) returned ∙ rest

module _ {ℓ} {A : Type ℓ} where
  -- `array.some(f)` and `array.every(f)` for a test that may throw: both stop at the first answer.
  unfoldable pub some_call : (A → Result Bool) → List A → Result Bool
  some_call f [] = ok false
  some_call f (x ∷ xs) = elim (f x) [
    | ok true ↦ ok true
    | ok false ↦ some_call f xs
    | throw e ↦ throw e
  ]

  unfoldable pub every_call : (A → Result Bool) → List A → Result Bool
  every_call f [] = ok true
  every_call f (x ∷ xs) = elim (f x) [
    | ok true ↦ every_call f xs
    | ok false ↦ ok false
    | throw e ↦ throw e
  ]

  pub every_call_iff :
      (f : A → Result Bool) (xs : List A)
      → (every_call f xs ≡ ok true) ↔ All (λ x. f x ≡ ok true) xs
  unfolding every_call
  every_call_iff f [] = ground arith
  every_call_iff f (x ∷ xs) = ground (arith, every_call_iff f xs)

  pub some_call_sound :
      (f : A → Result Bool) (xs : List A)
      → some_call f xs ≡ ok true
      → (x : A) × Memᴰ x xs × (f x ≡ ok true)
  unfolding some_call
  some_call_sound f [] h = cc
  some_call_sound f (x ∷ xs) h = elim (Result-cases (f x)) [
    | inl (true, e) ↦ (x, Memᴰ.head refl, e)
    | inl (false, e) ↦
        let (y, m, k) = some_call_sound f xs (rw (e, some_call) at h) in (y, Memᴰ.tail m, k)
    | inr (t, e) ↦ absurd (throw-ne-ok (rw (e, some_call) at h))
  ]
