-- ===== src/Sorting.antt =====
-- `array.sort` with a comparison, which keeps equal items in their order, and filters in a row.
use mathlib.Core.List.{Permᴰ}
use mathlib.Core.List.Permᴰ
use hybrid_quantum_cryptogra.Prelude.{
  ◌≡◌, refl, sym, Bool, true, false, ◌&&◌, ◌||◌, List, [], ◌∷◌, arith, All, filter_by, Bool-cases,
  if◌then◌else◌, inl, inr, filter_by_all, every,
}

-- Each item stands in order with all that follow.
abbrev pub Ordered {ℓ} : {A : Type ℓ} → (A → A → Bool) → List A → Type ℓ
Ordered le [] = Unit
Ordered le (x ∷ xs) = All (λ y. le x y ≡ true) xs × Ordered le xs

pub All-map {ℓ κ μ} :
    {A : Type ℓ} {P : A → Type κ} {Q : A → Type μ}
    → ((a : A) → P a → Q a)
    → (xs : List A) → All P xs
    → All Q xs
All-map f [] h = tt
All-map f (x ∷ xs) (h, hs) = (f x h, All-map f xs hs)

module _ {ℓ} {A : Type ℓ} (le : A → A → Bool) where
  unfoldable pub insert : A → List A → List A
  insert x [] = x ∷ []
  insert x (y ∷ ys) = if le x y then x ∷ y ∷ ys else y ∷ insert x ys

  unfoldable pub sort : List A → List A
  unfolding insert
  sort [] = []
  sort (x ∷ xs) = insert x (sort xs)

module _ {ℓ} {A : Type ℓ} (le : A → A → Bool) where
  insert-Perm : (x : A) (xs : List A) → Permᴰ (insert le x xs) (x ∷ xs)
  unfolding insert
  insert-Perm x [] = Permᴰ.refl (x ∷ [])
  insert-Perm x (y ∷ ys) = elim (Bool-cases (le x y)) [
    | inl e ↦ rw e (Permᴰ.refl (x ∷ y ∷ ys))
    | inr e ↦ rw e (Permᴰ.trans (Permᴰ.cons refl (insert-Perm x ys)) (Permᴰ.swap refl refl))
  ]

  pub sort-Perm : (xs : List A) → Permᴰ (sort le xs) xs
  unfolding sort
  sort-Perm [] = Permᴰ.nil
  sort-Perm (x ∷ xs) = Permᴰ.trans (insert-Perm x (sort le xs)) (Permᴰ.cons refl (sort-Perm xs))

  All-insert :
      (p : A → Bool) (x : A) (xs : List A)
      → p x ≡ true
      → All (λ y. p y ≡ true) xs
      → All (λ y. p y ≡ true) (insert le x xs)
  unfolding insert
  All-insert p x [] h hs = (h, tt)
  All-insert p x (y ∷ ys) h (k, hs) = elim (Bool-cases (le x y)) [
    | inl e ↦ rw e (h, (k, hs))
    | inr e ↦ rw e (k, All-insert p x ys h hs)
  ]

  -- Insertion keeps the order, for a comparison that is total and transitive.
  insert-Ordered :
      (total : (a b : A) → le a b ≡ false → le b a ≡ true)
      → (trans : (a b c : A) → le a b ≡ true → le b c ≡ true → le a c ≡ true)
      → (x : A) (xs : List A) → Ordered le xs
      → Ordered le (insert le x xs)
  unfolding insert
  insert-Ordered total trans x [] h = (tt, tt)
  insert-Ordered total trans x (y ∷ ys) (h, hs) = elim (Bool-cases (le x y)) [
    | inl e ↦ rw e ((e, All-map (λ z k. trans x y z e k) ys h), (h, hs))
    | inr e ↦
        rw e (All-insert (λ z. le y z) x ys (total x y e) h, insert-Ordered total trans x ys hs)
  ]

  pub sort-Ordered :
      (total : (a b : A) → le a b ≡ false → le b a ≡ true)
      → (trans : (a b c : A) → le a b ≡ true → le b c ≡ true → le a c ≡ true) → (xs : List A)
      → Ordered le (sort le xs)
  unfolding sort
  sort-Ordered total trans [] = tt
  sort-Ordered total trans (x ∷ xs) =
      insert-Ordered total trans x (sort le xs) (sort-Ordered total trans xs)

pub filter_by-filter_by {ℓ} :
    {A : Type ℓ} (p q : A → Bool) (xs : List A)
    → filter_by p (filter_by q xs) ≡ filter_by (λ x. q x && p x) xs
unfolding filter_by
filter_by-filter_by p q [] = refl
filter_by-filter_by p q (x ∷ xs) = ground (arith, filter_by-filter_by p q xs)

every-true {ℓ} : {A : Type ℓ} (xs : List A) → every (λ x. true) xs ≡ true
unfolding every
every-true [] = refl
every-true (x ∷ xs) = every-true xs

-- A criterion that is off is one that everything meets.
pub filter_by-or {ℓ} :
    {A : Type ℓ} (off : Bool) (p : A → Bool) (xs : List A)
    → (if off then xs else filter_by p xs) ≡ filter_by (λ x. off || p x) xs
filter_by-or true p xs = sym (filter_by_all (λ x. true) xs (every-true xs))
filter_by-or false p xs = refl
