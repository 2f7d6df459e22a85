-- ===== src/Validators/Extension.antt =====
-- frontend/src/utils/validators.js: which names of certificate files pass.
use hybrid_quantum_cryptogra.Prelude.{
  ℕ, ◌≤◌, ◌≡◌, ◌≢◌, ◌↔◌, ◌⊎◌, inl, inr, refl, sym, ap, subst, ◌∙◌, true, false, some, List, [], ◌∷◌,
  ◌++◌, arith, All, ◌==◌, ==_iff, Bool-cases,
}
use hybrid_quantum_cryptogra.Js.{push_front, Text, lit, text_eq_iff, includes, to_lower_case}
use hybrid_quantum_cryptogra.Validators.{
  File, allowed_extensions, valid, split, pop, file_extension, validate_certificate_file,
}

abbrev HasNoDot : Text → Type 0
HasNoDot s = All (λ c. c ≢ b'.') s

-- The extension of a file name: what follows the last dot, or the whole name if it has none.
abbrev pub IsExtension : (extension name : Text) → Type 0
IsExtension extension name =
    HasNoDot extension
    × ((name ≡ extension) ⊎ ((stem : Text) × (name ≡ stem ++ (b'.' ∷ extension))))

-- What the segments of a name are to be.
abbrev Splits : Text → List Text → Type 0
Splits s [] = ⊥
Splits s (segment ∷ []) = (s ≡ segment) × HasNoDot segment
Splits s (segment ∷ next ∷ segments) =
    HasNoDot (pop (next ∷ segments))
    × ((stem : Text) × (s ≡ stem ++ (b'.' ∷ pop (next ∷ segments))))

push_front-Splits :
    (c : ℕ) (s : Text) (segments : List Text)
    → c ≢ b'.'
    → Splits s segments
    → Splits (c ∷ s) (push_front c segments)
unfolding push_front pop
push_front-Splits c s [] other h = absurd h
push_front-Splits c s (segment ∷ []) other (e, h) = (ap (λ t. c ∷ t) e, (other, h))
push_front-Splits c s (segment ∷ next ∷ segments) other (h, (stem, e)) =
    (h, (c ∷ stem, ap (λ t. c ∷ t) e))

dot-Splits :
    (s : Text) (segments : List Text) → Splits s segments → Splits (b'.' ∷ s) ([] ∷ segments)
unfolding pop
dot-Splits s [] h = absurd h
dot-Splits s (segment ∷ []) (e, h) = (h, ([], ap (λ t. b'.' ∷ t) e))
dot-Splits s (segment ∷ next ∷ segments) (h, (stem, e)) = (h, (b'.' ∷ stem, ap (λ t. b'.' ∷ t) e))

split_dot : (c : ℕ) (s : Text) → (c == b'.') ≡ true → split (c ∷ s) ≡ [] ∷ split s
unfolding split
split_dot c s e = rw e

split_other : (c : ℕ) (s : Text) → (c == b'.') ≡ false → split (c ∷ s) ≡ push_front c (split s)
unfolding split
split_other c s e = rw e

split-Splits : (s : Text) → Splits s (split s)
unfolding split
split-Splits [] = (refl, tt)
split-Splits (c ∷ s) = elim (Bool-cases (c == b'.')) [
  | inl e ↦
      subst (λ segments. Splits (c ∷ s) segments) (sym (split_dot c s e))
        (subst (λ d. Splits (d ∷ s) ([] ∷ split s)) (sym ((==_iff c b'.').0 e))
          (dot-Splits s (split s) (split-Splits s)))
  | inr e ↦
      subst (λ segments. Splits (c ∷ s) segments) (sym (split_other c s e))
        (push_front-Splits c s (split s) (λ d. ground (arith, (==_iff c b'.').1 d))
          (split-Splits s))
]

-- The last segment is the extension, for every name there is.
pop-split_sound :
    (s : Text) (segments : List Text) → Splits s segments → IsExtension (pop segments) s
unfolding pop
pop-split_sound s [] h = absurd h
pop-split_sound s (segment ∷ []) (e, h) = (h, inl e)
pop-split_sound s (segment ∷ next ∷ segments) (h, found) = (h, inr found)

split-HasNoDot : (s : Text) → HasNoDot s → split s ≡ s ∷ []
unfolding split push_front
split-HasNoDot [] h = refl
split-HasNoDot (c ∷ s) (other, h) = split_other c s (ground arith) ∙ rw (split-HasNoDot s h)

split_stem :
    (stem extension : Text)
    → HasNoDot extension
    → (segment : Text) × (next : Text) × (segments : List Text) × (split
          (stem ++ (b'.' ∷ extension))
        ≡ segment ∷ next ∷ segments)
      × (pop (next ∷ segments) ≡ extension)
unfolding split push_front pop
split_stem [] extension h = ([], extension, [], ap (λ t. [] ∷ t) (split-HasNoDot extension h), refl)
split_stem (c ∷ stem) extension h =
    let (segment, next, segments, e, last) = split_stem stem extension h in
    elim (Bool-cases (c == b'.')) [
      | inl dot ↦
          ([], segment, next ∷ segments, split_dot c (stem ++ (b'.' ∷ extension)) dot ∙ rw e, last)
      | inr other ↦ (
        c ∷ segment,
        next,
        segments,
        split_other c (stem ++ (b'.' ∷ extension)) other ∙ rw e,
        last,
      )
    ]

pop-split : (extension name : Text) → IsExtension extension name → pop (split name) ≡ extension
unfolding pop
pop-split extension name (h, inl e) = rw (e, split-HasNoDot extension h)
pop-split extension name (h, inr (stem, e)) =
    let (segment, next, segments, shape, last) = split_stem stem extension h in rw (e, shape) last

allowed_iff :
    (t : Text) → (includes allowed_extensions t ≡ true) ↔ ((t ≡ lit "pem") ⊎ (t ≡ lit "crt"))
unfolding includes
allowed_iff t = ground (arith, text_eq_iff (lit "pem") t, text_eq_iff (lit "crt") t)

checks_iff :
    (file : File)
    → (validate_certificate_file (some file) ≡ valid) ↔ (
        (includes allowed_extensions (to_lower_case (pop (split file.name))) ≡ true)
        × (file.size ≤ 5242880))
unfolding validate_certificate_file file_extension
checks_iff file = ground arith

-- A certificate file passes exactly if its extension, what follows the last dot or the whole name if
-- it has none, is "pem" or "crt" in whatever case, and it holds 5 MB at most.
pub validate_certificate_file_iff :
    (file : File)
    → (validate_certificate_file (some file) ≡ valid) ↔ (
        ((extension : Text) × IsExtension extension file.name
          × ((to_lower_case extension ≡ lit "pem") ⊎ (to_lower_case extension ≡ lit "crt")))
        × (file.size ≤ 5242880))
validate_certificate_file_iff file = (
  λ e.
      let (allowed, small) = (checks_iff file).0 e in
      (
        (
          pop (split file.name),
          pop-split_sound file.name (split file.name) (split-Splits file.name),
          (allowed_iff _).0 allowed,
        ),
        small,
      ),
  λ ((extension, found, allowed), small).
      (checks_iff file).1
        ((allowed_iff _).1 (rw (pop-split extension file.name found) allowed), small),
)
