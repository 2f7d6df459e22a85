-- ===== src/Js/Trimming.antt =====
-- What `trim` does to a text that is trimmed already, and to white space around one that is.
use hybrid_quantum_cryptogra.Prelude.{
  ℕ, ◌≡◌, refl, ap, ◌∙◌, inl, inr, Bool-cases, true, false, [], ◌∷◌, ◌++◌, All, arith, length, ◌≤◌,
  ◌+◌,
}
use hybrid_quantum_cryptogra.Js.Strings.{
  Text, is_space, is_empty, keep_unit, trim, trim_start, trim_end,
}

keep_unit-trim_end : (c : ℕ) (t : Text) → trim_end t ≡ t → trim_end (keep_unit c t) ≡ keep_unit c t
unfolding trim_end keep_unit
keep_unit-trim_end c [] h = ground arith
keep_unit-trim_end c (d ∷ t) h = rw h refl

trim_end_idem : (s : Text) → trim_end (trim_end s) ≡ trim_end s
unfolding trim_end
trim_end_idem [] = refl
trim_end_idem (c ∷ s) = keep_unit-trim_end c (trim_end s) (trim_end_idem s)

keep_unit-trim_start :
    (c : ℕ) (t : Text) → is_space c ≡ false → trim_start (keep_unit c t) ≡ keep_unit c t
unfolding trim_start keep_unit
keep_unit-trim_start c [] h = rw h (rw h refl)
keep_unit-trim_start c (d ∷ t) h = rw h refl

trim_start-trim_end : (s : Text) → trim_start (trim_end (trim_start s)) ≡ trim_end (trim_start s)
unfolding trim_start trim_end
trim_start-trim_end [] = refl
trim_start-trim_end (c ∷ s) = elim (Bool-cases (is_space c)) [
  | inl space ↦ rw space (trim_start-trim_end s)
  | inr kept ↦ rw kept (keep_unit-trim_start c (trim_end s) kept)
]

pub trim_idem : (s : Text) → trim (trim s) ≡ trim s
unfolding trim
trim_idem s = ap trim_end (trim_start-trim_end s) ∙ trim_end_idem (trim_start s)

pub trim-is_empty : (s : Text) → is_empty (trim s) ≡ false → is_empty s ≡ false
unfolding trim is_empty
trim-is_empty [] given = given
trim-is_empty (c ∷ s) given = refl

abbrev pub IsBlank : Text → Type 0
IsBlank s = All (λ c. is_space c ≡ true) s

trim_end-IsBlank : (s : Text) → IsBlank s → trim_end s ≡ []
unfolding trim_end keep_unit
trim_end-IsBlank [] h = refl
trim_end-IsBlank (c ∷ s) (space, h) = rw (trim_end-IsBlank s h) (rw space refl)

trim_end-append : (s blank : Text) → IsBlank blank → trim_end (s ++ blank) ≡ trim_end s
unfolding trim_end
trim_end-append [] blank h = trim_end-IsBlank blank h
trim_end-append (c ∷ s) blank h = ap (keep_unit c) (trim_end-append s blank h)

trim_start-append : (blank s : Text) → IsBlank blank → trim_start (blank ++ s) ≡ trim_start s
unfolding trim_start
trim_start-append [] s h = refl
trim_start-append (c ∷ blank) s (space, h) = rw space (trim_start-append blank s h)

-- A text that ends with a unit which `trim` keeps.
pub record EndsKept (s : Text) : Type 0 where
  pub given : is_empty s ≡ false
  pub end_kept : trim_end s ≡ s

keep_unit-given : (c : ℕ) (s : Text) → is_empty s ≡ false → keep_unit c s ≡ c ∷ s
unfolding keep_unit is_empty
keep_unit-given c [] h = cc
keep_unit-given c (d ∷ s) h = refl

cons-EndsKept : (c : ℕ) (s : Text) → EndsKept s → EndsKept (c ∷ s)
unfolding trim_end is_empty
cons-EndsKept c s h = record {
  given = refl;
  end_kept = rw (h.end_kept) (keep_unit-given c s h.given);
}

pub append-EndsKept : (s t : Text) → EndsKept t → EndsKept (s ++ t)
append-EndsKept [] t h = h
append-EndsKept (c ∷ s) t h = cons-EndsKept c (s ++ t) (append-EndsKept s t h)

trim_start-kept : (c : ℕ) (s : Text) → is_space c ≡ false → trim_start (c ∷ s) ≡ c ∷ s
unfolding trim_start
trim_start-kept c s kept = rw kept refl

-- White space around a text that neither starts nor ends with any is what `trim` takes away.
pub trim-append :
    (before : Text) (c : ℕ) (s after : Text)
    → IsBlank before
    → IsBlank after
    → is_space c ≡ false
    → EndsKept (c ∷ s)
    → trim (before ++ ((c ∷ s) ++ after)) ≡ c ∷ s
unfolding trim
trim-append before c s after blank_before blank_after kept ends =
    ap trim_end (trim_start-append before ((c ∷ s) ++ after) blank_before)
    ∙ ap trim_end (trim_start-kept c (s ++ after) kept)
    ∙ trim_end-append (c ∷ s) after blank_after
    ∙ ends.end_kept

length-keep_unit : (c : ℕ) (s : Text) → length (keep_unit c s) ≤ length s + 1
unfolding keep_unit
length-keep_unit c [] = ground arith
length-keep_unit c (d ∷ s) = omega arith

length-trim_end : (s : Text) → length (trim_end s) ≤ length s
unfolding trim_end
length-trim_end [] = omega arith
length-trim_end (c ∷ s) = omega (arith, length-keep_unit c (trim_end s), length-trim_end s)

length-trim_start : (s : Text) → length (trim_start s) ≤ length s
unfolding trim_start
length-trim_start [] = omega arith
length-trim_start (c ∷ s) = ground (arith, length-trim_start s)

pub length-trim : (s : Text) → length (trim s) ≤ length s
unfolding trim
length-trim s = omega (arith, length-trim_end (trim_start s), length-trim_start s)
