-- ===== src/Prelude/Lists.antt =====
-- Lists measured by native numbers, and the Boolean quantifiers that the source calls on arrays.
use Prim.Native.Nat.{ℕ, zero, suc, ◌+◌}
use mathlib.Core.Path.{◌≡◌, refl}
use mathlib.Core.Bool.{Bool, true, false, ◌&&◌, Bool-set}
use mathlib.Core.List.{List, [], ◌∷◌, ◌++◌, Mem, mem-cons, not-mem-nil}
use mathlib.Core.Logic.Or
use native.Mathlib.Omega.{arith}

module _ {ℓ} {A : Type ℓ} where
  abbrev pub length : List A → ℕ
  length [] = 0
  length (x ∷ xs) = suc (length xs)

  pub length-append : (xs ys : List A) → length (xs ++ ys) ≡ length xs + length ys
  length-append [] ys = omega arith
  length-append (x ∷ xs) ys = omega (arith, length-append xs ys)

  abbrev pub take : ℕ → List A → List A
  take zero xs = []
  take (suc n) [] = []
  take (suc n) (x ∷ xs) = x ∷ take n xs

  abbrev pub drop : ℕ → List A → List A
  drop zero xs = xs
  drop (suc n) [] = []
  drop (suc n) (x ∷ xs) = drop n xs

  abbrev pub All {κ} : (A → Type κ) → List A → Type κ
  All P [] = Unit
  All P (x ∷ xs) = P x × All P xs

  pub All-append {κ} : (P : A → Type κ) (xs ys : List A) → All P xs → All P ys → All P (xs ++ ys)
  All-append P [] ys h k = k
  All-append P (x ∷ xs) ys (h, hs) k = (h, All-append P xs ys hs k)

  -- `array.every(p)` and `array.filter(p)` for a test that cannot throw.
  unfoldable pub every : (A → Bool) → List A → Bool
  every p [] = true
  every p (x ∷ xs) = p x && every p xs

  unfoldable pub filter_by : (A → Bool) → List A → List A
  filter_by p [] = []
  filter_by p (x ∷ xs) = elim (p x) [ true ↦ x ∷ filter_by p xs | false ↦ filter_by p xs ]

  pub filter_by_all : (p : A → Bool) (xs : List A) → every p xs ≡ true → filter_by p xs ≡ xs
  unfolding every filter_by
  filter_by_all p [] h = refl
  filter_by_all p (x ∷ xs) h = ground (arith, filter_by_all p xs)

  -- What a test finds true of each listed item holds of every member.
  pub every_sound : (p : A → Bool) (xs : List A) {a : A} → every p xs ≡ true → Mem a xs → p a ≡ true
  unfolding every
  every_sound p [] h m = absurd (not-mem-nil m)
  every_sound p (x ∷ xs) {a} h m =
      Or.elim (Bool-set (p a) true) (mem-cons.0 m) (λ e. rw e (ground arith))
        (every_sound p xs (ground arith))
