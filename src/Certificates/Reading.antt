-- ===== src/Certificates/Reading.antt =====
-- frontend/src/context/AuthContext.jsx: what `parseCertificateText` makes of a text whose lines are fields.
use hybrid_quantum_cryptogra.Prelude.{
  ℕ, Option, none, some, if◌then◌else◌, ◌≡◌, ◌≢◌, refl, sym, ap, ◌∙◌, subst, true, false, List, [],
  ◌∷◌, ◌++◌, All, arith, ◌==◌, ==_iff, ap₂, Bool-cases, inl, inr,
}
use hybrid_quantum_cryptogra.Js.{
  Text, lit, text_eq, text_eq_sound, trim, trim_start, trim_end, is_space, is_empty, lines,
  split_on, join, has_unit, push_front, Lacks, LineEnd, end_text, EndsClean, lines-append,
  keep_unit,
}
use hybrid_quantum_cryptogra.Keystore.Platform.{get}
use hybrid_quantum_cryptogra.Keystore.Database.{get-put}
use hybrid_quantum_cryptogra.Certificates.{
  Fields, assign, read_parts, read_line, read_lines, parse_certificate_text,
}

-- A field as a line of a certificate holds it: its name is not empty and has no equals sign, neither
-- part has a line end, and no white space stands around them.
pub record IsField (field : Text × Text) : Type 0 where
  pub named : is_empty field.0 ≡ false
  pub undivided : Lacks b'=' field.0
  pub name_line : Lacks 10 field.0
  pub value_line : Lacks 10 field.1
  pub name_trimmed : trim field.0 ≡ field.0
  pub value_trimmed : trim field.1 ≡ field.1

-- Fields written out, a line for each.
abbrev pub written : LineEnd → Fields → Text
written e [] = []
written e ((name, value) ∷ fields) = (name ++ (b'=' ∷ value)) ++ (end_text e ++ written e fields)

-- The object after some assignments in turn.
abbrev assign_all : Fields → Fields → Fields
assign_all [] payload = payload
assign_all ((name, value) ∷ fields) payload = assign_all fields (assign name value payload)

join-push_front :
    (d c : ℕ) (segments : List Text)
    → segments ≢ []
    → join d (push_front c segments) ≡ c ∷ join d segments
unfolding join push_front
join-push_front d c [] h = absurd (h refl)
join-push_front d c (segment ∷ []) h = refl
join-push_front d c (segment ∷ next ∷ rest) h = refl

join-nil_front :
    (d : ℕ) (segments : List Text) → segments ≢ [] → join d ([] ∷ segments) ≡ d ∷ join d segments
unfolding join
join-nil_front d [] h = absurd (h refl)
join-nil_front d (segment ∷ segments) h = refl

split_on-ne-nil : (d : ℕ) (s : Text) → split_on d s ≢ []
unfolding split_on push_front
split_on-ne-nil d [] h = cc
split_on-ne-nil d (c ∷ s) h = ground (arith, split_on-ne-nil d s)

join-split_on : (d : ℕ) (s : Text) → join d (split_on d s) ≡ s
unfolding split_on join
join-split_on d [] = refl
join-split_on d (c ∷ s) = elim (Bool-cases (c == d)) [
  | inl same ↦ rw same (
      join-nil_front d (split_on d s) (split_on-ne-nil d s)
      ∙ ap₂ ◌∷◌ (sym ((==_iff c d).0 same)) (join-split_on d s))
  | inr other ↦ rw other (
      join-push_front d c (split_on d s) (split_on-ne-nil d s)
      ∙ ap (λ t. c ∷ t) (join-split_on d s))
]

split_on-append :
    (d : ℕ) (s rest : Text) → Lacks d s → split_on d (s ++ (d ∷ rest)) ≡ s ∷ split_on d rest
unfolding split_on push_front
split_on-append d [] rest h = ground arith
split_on-append d (c ∷ s) rest (h, hs) = ground (arith, split_on-append d s rest hs)

has_unit-append : (d : ℕ) (s rest : Text) → has_unit d (s ++ (d ∷ rest)) ≡ true
unfolding has_unit
has_unit-append d [] rest = ground arith
has_unit-append d (c ∷ s) rest = ground (arith, has_unit-append d s rest)

not_return : (c : ℕ) → is_space c ≡ false → c ≢ 13
unfolding is_space
not_return c e = ground arith

keep_unit-EndsClean : (c : ℕ) (s : Text) → EndsClean s → EndsClean (keep_unit c s)
unfolding keep_unit
keep_unit-EndsClean c [] h = elim (Bool-cases (is_space c)) [
  | inl e ↦ rw e tt
  | inr e ↦ rw e (not_return c e)
]
keep_unit-EndsClean c (d ∷ s) h = h

trim_end-EndsClean : (s : Text) → EndsClean (trim_end s)
unfolding trim_end
trim_end-EndsClean [] = tt
trim_end-EndsClean (c ∷ s) = keep_unit-EndsClean c (trim_end s) (trim_end-EndsClean s)

trimmed-EndsClean : (s : Text) → trim s ≡ s → EndsClean s
unfolding trim
trimmed-EndsClean s e = subst EndsClean e (trim_end-EndsClean (trim_start s))

line-EndsClean : (name value : Text) → EndsClean value → EndsClean (name ++ (b'=' ∷ value))
line-EndsClean [] [] h = omega arith
line-EndsClean [] (c ∷ value) h = h
line-EndsClean (c ∷ []) value h = line-EndsClean [] value h
line-EndsClean (c ∷ d ∷ name) value h = line-EndsClean (d ∷ name) value h

Lacks-append : (d : ℕ) (s t : Text) → Lacks d s → Lacks d t → Lacks d (s ++ t)
Lacks-append d [] t h k = k
Lacks-append d (c ∷ s) t (h, hs) k = (h, Lacks-append d s t hs k)

read_parts_lem :
    (name : Text) (rest : List Text) (payload : Fields)
    → is_empty name ≡ false
    → rest ≢ []
    → read_parts (name ∷ rest) payload ≡ assign (trim name) (trim (join b'=' rest)) payload
unfolding read_parts
read_parts_lem name [] payload named h = absurd (h refl)
read_parts_lem name (next ∷ rest) payload named h = rw named

line_given : (name value : Text) → is_empty (name ++ (b'=' ∷ value)) ≡ false
unfolding is_empty
line_given [] value = refl
line_given (c ∷ name) value = refl

-- A line with a field adds it to the object.
read_line-field :
    (name value : Text) (payload : Fields)
    → IsField (name, value)
    → read_line (name ++ (b'=' ∷ value)) payload ≡ assign name value payload
unfolding read_line
read_line-field name value payload field =
    rw
      (
        line_given name value,
        has_unit-append b'=' name value,
        split_on-append b'=' name value field.undivided,
      )
      (read_parts_lem name (split_on b'=' value) payload field.named (split_on-ne-nil b'=' value)
        ∙ rw (join-split_on b'=' value, field.name_trimmed, field.value_trimmed))

read_nothing : (payload : Fields) → read_lines (lines []) payload ≡ payload
unfolding read_lines read_line lines is_empty
read_nothing payload = refl

read_lines-written :
    (e : LineEnd) (fields payload : Fields)
    → All IsField fields
    → read_lines (lines (written e fields)) payload ≡ assign_all fields payload
unfolding read_lines
read_lines-written e [] payload good = read_nothing payload
read_lines-written e ((name, value) ∷ fields) payload (field, good) =
    ap (λ (ls : List Text). read_lines ls payload)
      (lines-append (name ++ (b'=' ∷ value)) e (written e fields)
        (Lacks-append 10 name (b'=' ∷ value) field.name_line ((omega arith), field.value_line))
        (line-EndsClean name value (trimmed-EndsClean value field.value_trimmed)))
    ∙ ap (read_lines (lines (written e fields))) (read_line-field name value payload field)
    ∙ read_lines-written e fields (assign name value payload) good

-- The value that a name has after some fields, each in place of an earlier one.
pub value_after : Text → Fields → Option Text → Option Text
value_after key [] old = old
value_after key ((name, value) ∷ fields) old =
    value_after key fields (if text_eq name key then some value else old)

special_differs :
    (key name : Text)
    → text_eq key (lit "__proto__") ≡ false
    → text_eq name (lit "__proto__") ≡ true
    → text_eq name key ≡ false
special_differs key name proper special = elim (Bool-cases (text_eq name key)) [
  | inl same ↦ absurd (true-ne-false (sym (rw (text_eq_sound name key same) at special) ∙ proper))
  | inr other ↦ other
]
  where
    true-ne-false : true ≢ false
    true-ne-false e = cc

-- What an object has for a key after a field was added.
get-assign :
    (key name value : Text) (payload : Fields)
    → text_eq key (lit "__proto__") ≡ false
    → get key (assign name value payload)
      ≡ (if text_eq name key then some value else get key payload)
unfolding assign
get-assign key name value payload proper = elim (Bool-cases (text_eq name (lit "__proto__"))) [
  | inl special ↦ rw (special, special_differs key name proper special) refl
  | inr plain ↦ rw plain (get-put name key value payload)
]

get-assign_all :
    (key : Text) (fields payload : Fields)
    → text_eq key (lit "__proto__") ≡ false
    → get key (assign_all fields payload) ≡ value_after key fields (get key payload)
unfolding value_after
get-assign_all key [] payload proper = refl
get-assign_all key ((name, value) ∷ fields) payload proper =
    get-assign_all key fields (assign name value payload) proper
    ∙ ap (value_after key fields) (get-assign key name value payload proper)

-- Reading a certificate gives every name the value that the text has for it, whichever line end was used,
-- equals signs in the values included; of two fields with one name, that of the later one, and nothing for
-- a name that no field has. The name `__proto__` is left out.
pub parse_certificate_text-written :
    (e : LineEnd) (fields : Fields) (key : Text)
    → All IsField fields
    → text_eq key (lit "__proto__") ≡ false
    → get key (parse_certificate_text (written e fields)) ≡ value_after key fields none
unfolding parse_certificate_text get
parse_certificate_text-written e fields key good proper =
    ap (get key) (read_lines-written e fields [] good) ∙ get-assign_all key fields [] proper
