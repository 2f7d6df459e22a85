-- ===== src/Js/Objects.antt =====
-- Reading a property of an object literal by a computed key. A key that the literal lacks is looked
-- up in `Object.prototype`, where it may find a function or an object: the source's tables do not
-- guard against that, so the model tells the three answers apart.
use hybrid_quantum_cryptogra.Prelude.{
  ◌≡◌, ◌≢◌, ◌⊎◌, refl, Bool, true, false, List, [], ◌∷◌, arith, if◌then◌else◌, every, not,
  Bool-cases, inl, inr,
}
use hybrid_quantum_cryptogra.Js.Strings.{Text, lit, text_eq, text_eq_sound, includes}

pub data Property {ℓ} (A : Type ℓ) : Type ℓ where
  own : A → Property A
  inherited : Property A
  absent : Property A

pub Property-cases {ℓ} :
    {A : Type ℓ} (found : Property A)
    → ((v : A) × (found ≡ own v)) ⊎ ((found ≡ inherited) ⊎ (found ≡ absent))
Property-cases (own v) = inl (v, refl)
Property-cases inherited = inr (inl refl)
Property-cases absent = inr (inr refl)

unfoldable pub object_prototype_keys : List Text
object_prototype_keys =
    lit "constructor"
    ∷ lit "__proto__"
    ∷ lit "toString"
    ∷ lit "valueOf"
    ∷ lit "hasOwnProperty"
    ∷ lit "isPrototypeOf"
    ∷ lit "propertyIsEnumerable"
    ∷ lit "toLocaleString"
    ∷ lit "__defineGetter__"
    ∷ lit "__defineSetter__"
    ∷ lit "__lookupGetter__"
    ∷ lit "__lookupSetter__"
    ∷ []

-- `table[key]`
unfoldable pub get_property {ℓ} : {A : Type ℓ} → Text → List (Text × A) → Property A
get_property key [] = if includes object_prototype_keys key then inherited else absent
get_property key ((k, v) ∷ table) = if text_eq k key then own v else get_property key table

module _ {ℓ} {A : Type ℓ} where
  -- What a test finds true of every entry in the table holds of a property that was found in it.
  pub own_entry :
      (p : Text → A → Bool) (key : Text) (table : List (Text × A)) {v : A}
      → every (λ entry. p entry.0 entry.1) table ≡ true
      → get_property key table ≡ own v
      → p key v ≡ true
  unfolding get_property every
  own_entry p key [] h e = ground arith
  own_entry p key ((k, w) ∷ table) {v} h e = elim (Bool-cases (text_eq k key)) [
    | inl hit ↦ let same : k ≡ key = text_eq_sound k key hit in rw (← same) (ground arith)
    | inr miss ↦ own_entry p key table {v = v} (ground arith) (ground arith)
  ]

  pub own_every :
      (p : A → Bool) (key : Text) (table : List (Text × A)) {v : A}
      → every (λ entry. p entry.1) table ≡ true
      → get_property key table ≡ own v
      → p v ≡ true
  own_every p key table h e = own_entry (λ (_ : Text) (v : A). p v) key table h e

  pub get_property-inherited :
      (key : Text) (table : List (Text × A))
      → every (λ entry. not (includes object_prototype_keys entry.0)) table ≡ true
      → includes object_prototype_keys key ≡ true
      → get_property key table ≡ inherited
  unfolding get_property every
  get_property-inherited key [] h e = rw e
  get_property-inherited key ((k, v) ∷ table) h e = elim (Bool-cases (text_eq k key)) [
    | inl hit ↦
        let same : k ≡ key = text_eq_sound k key hit in
        let first : not (includes object_prototype_keys k) ≡ true = ground arith in
        let clash : not (includes object_prototype_keys key) ≡ true = rw (← same) first in
        absurd (ground arith)
    | inr miss ↦ rw miss (get_property-inherited key table (ground arith) e)
  ]

  pub get_property-ne-inherited :
      (key : Text) (table : List (Text × A))
      → includes object_prototype_keys key ≡ false
      → get_property key table ≢ inherited
  unfolding get_property
  get_property-ne-inherited key [] h e = ground arith
  get_property-ne-inherited key ((k, v) ∷ table) h e =
      ground (arith, get_property-ne-inherited key table h)
