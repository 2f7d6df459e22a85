-- ===== src/Pagination/Slices.antt =====
-- The pages of a list, one after the other, are the list.
use native.Mathlib.Nat.{div-add-mod, mod-lt, suc-mul}
use hybrid_quantum_cryptogra.Prelude.{
  ℕ, zero, suc, ◌+◌, ◌-◌, ◌*◌, ◌/◌, ◌≤◌, ◌<◌, ◌≡◌, refl, sym, ap, ◌∙◌, List, [], ◌∷◌, ◌++◌, ◌≡⟨◌⟩◌,
  ◌∎, arith, length, take, drop,
}
use hybrid_quantum_cryptogra.Pagination.{page_count, page_slice}

start : (count : ℕ) → suc count - 1 ≡ count
start count = omega arith

window : (count per : ℕ) → suc count * per - (suc count - 1) * per ≡ per
window count per = rw (start count) (omega (arith, suc-mul count per))

covered : (items per : ℕ) → 0 < per → items ≤ (items + per - 1) / per * per
covered items per h = omega (arith, div-add-mod (items + per - 1) per, mod-lt (items + per - 1) h)

module _ {ℓ} {A : Type ℓ} where
  take_nil : (n : ℕ) → take {A = A} n [] ≡ []
  take_nil zero = refl
  take_nil (suc n) = refl

  take-drop : (m n : ℕ) (xs : List A) → take m xs ++ take n (drop m xs) ≡ take (m + n) xs
  take-drop zero n xs = ap (λ (k : ℕ). take k xs) (omega arith)
  take-drop (suc m) n [] = take_nil n ∙ sym (take_nil (suc m + n))
  take-drop (suc m) n (x ∷ xs) =
      ap (λ (l : List A). x ∷ l) (take-drop m n xs)
      ∙ ap (λ (k : ℕ). take k (x ∷ xs)) {x = suc (m + n)} (omega arith)

  take_all : (n : ℕ) (xs : List A) → length xs ≤ n → take n xs ≡ xs
  take_all zero [] h = refl
  take_all zero (x ∷ xs) h = absurd (omega arith)
  take_all (suc n) [] h = refl
  take_all (suc n) (x ∷ xs) h = ap (λ (l : List A). x ∷ l) (take_all n xs (omega arith))

  -- The first pages of a list.
  unfoldable pub pages : (count items_per_page : ℕ) → List A → List A
  pages zero items_per_page xs = []
  pages (suc count) items_per_page xs =
      pages count items_per_page xs ++ page_slice (suc count) items_per_page xs

  pages-take :
      (count items_per_page : ℕ) (xs : List A)
      → pages count items_per_page xs ≡ take (count * items_per_page) xs
  unfolding pages page_slice
  pages-take zero per xs = ap (λ (k : ℕ). take k xs) {x = 0} (omega arith)
  pages-take (suc count) per xs =
      pages count per xs
        ++ take (suc count * per - (suc count - 1) * per) (drop ((suc count - 1) * per) xs)
      ≡⟨ (rw (pages-take count per xs, window count per, start count)) ⟩
        take (count * per) xs ++ take per (drop (count * per) xs)
      ≡⟨ take-drop (count * per) per xs ⟩ take (count * per + per) xs
      ≡⟨ ap (λ (k : ℕ). take k xs) (grind arith) ⟩ take (suc count * per) xs ∎

-- With a positive number of items on a page, going through all the pages shows every item of the list, once and in order.
pub pages-page_count {ℓ} :
    {A : Type ℓ} (items_per_page : ℕ) (xs : List A)
    → 0 < items_per_page
    → pages (page_count (length xs) items_per_page) items_per_page xs ≡ xs
unfolding page_count
pages-page_count per xs h = pages-take _ per xs ∙ take_all _ xs (covered (length xs) per h)
