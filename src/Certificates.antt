-- ===== src/Certificates.antt =====
-- frontend/src/context/AuthContext.jsx: reading the text of a certificate file (`parseCertificateText`),
-- and the identifier that a login takes from it.
pub mod Reading
use hybrid_quantum_cryptogra.Prelude.{
  ℕ, Bool, true, false, not, ◌||◌, Option, none, some, List, [], ◌∷◌, ◌++◌, if◌then◌else◌, ◌==◌,
}
use hybrid_quantum_cryptogra.Js.{
  Text, lit, text_eq, to_lower_case, trim, is_empty, lines, split_on, join, has_unit, or_empty,
}
use hybrid_quantum_cryptogra.Roles.{truthy}
use hybrid_quantum_cryptogra.Keystore.Platform.{get, put}

-- The object that the fields are collected in.
abbrev pub Fields : Type 0
Fields = List (Text × Text)

-- `payload[key] = value`, which does nothing where the key is `__proto__` and the value a string.
unfoldable pub assign : Text → Text → Fields → Fields
unfolding put
assign key value payload = if text_eq key (lit "__proto__") then payload else put key value payload

read_parts : List Text → Fields → Fields
unfolding assign
read_parts [] payload = payload
read_parts (key ∷ []) payload = payload
read_parts (key ∷ next ∷ rest) payload =
    if is_empty key then payload else assign (trim key) (trim (join b'=' (next ∷ rest))) payload

unfoldable pub read_line : Text → Fields → Fields
unfolding read_parts
read_line line payload =
    if is_empty line || not (has_unit b'=' line)
    then payload
    else read_parts (split_on b'=' line) payload

unfoldable pub read_lines : List Text → Fields → Fields
unfolding read_line
read_lines [] payload = payload
read_lines (line ∷ rest) payload = read_lines rest (read_line line payload)

unfoldable pub parse_certificate_text : Text → Fields
unfolding read_lines
parse_certificate_text text = read_lines (lines text) []

-- `name.replace(/\.pem$/i, "")`
without_extension : Text → Text
without_extension [] = []
without_extension (c ∷ s) =
    let rest = without_extension s in
    if text_eq (to_lower_case (c ∷ s)) (lit ".pem") then [] else c ∷ rest

-- The part of a name before its first underscore, or the whole name.
before_underscore : Text → Text
before_underscore [] = []
before_underscore (c ∷ s) = let rest = before_underscore s in if c == b'_' then [] else c ∷ rest

-- The identifier, from the fields or else from the name of the file; empty where there is none.
unfoldable pub certificate_id_of : Fields → Text → Text
unfolding without_extension before_underscore get truthy
certificate_id_of fields file_name = elim (truthy (get (lit "certificate_id") fields)) [
  | some id ↦ id
  | none ↦ elim (truthy (get (lit "user_id") fields)) [
    | some id ↦ id
    | none ↦ before_underscore (without_extension (trim file_name))
  ]
]

-- `(certificateData.device_id || "").trim()`
unfoldable pub device_id_of : Fields → Text
unfolding get
device_id_of fields = trim (or_empty (get (lit "device_id") fields))
