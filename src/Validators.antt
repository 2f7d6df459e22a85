-- ===== src/Validators.antt =====
-- frontend/src/utils/validators.js: the checks of an uploaded certificate file, of an amount and of a
-- required field.
pub mod Extension
use hybrid_quantum_cryptogra.Prelude.{
  ℕ, ◌*◌, Option, none, some, List, [], ◌∷◌, ◌++◌, if◌then◌else◌, ltb, ◌==◌, not,
}
use hybrid_quantum_cryptogra.Js.{
  ℤ, pos, negsuc, push_front, Text, lit, includes, to_lower_case, trim, is_empty,
}

-- What the source reads of a `File`.
pub record File : Type 0 where
  pub name : Text
  pub size : ℕ

pub data Validation : Type 0 where
  valid : Validation
  refused : (message : Text) → Validation

-- `s.split(".")`
split : Text → List Text
unfolding push_front
split [] = [] ∷ []
split (c ∷ s) = let rest = split s in if c == b'.' then [] ∷ rest else push_front c rest

-- `segments.pop()`; `split` gives one segment at least.
pop : List Text → Text
pop [] = []
pop (segment ∷ []) = segment
pop (segment ∷ next ∷ segments) = pop (next ∷ segments)

abbrev allowed_extensions : List Text
allowed_extensions = lit "pem" ∷ lit "crt" ∷ []

file_extension : File → Text
unfolding split pop
file_extension file = to_lower_case (pop (split file.name))

unfoldable pub validate_certificate_file : Option File → Validation
unfolding file_extension
validate_certificate_file none = refused (lit "Certificate file is required")
validate_certificate_file (some file) =
    if not (includes allowed_extensions (file_extension file))
    then refused (lit "Invalid certificate format. Use .pem or .crt")
    else if ltb (5 * 1024 * 1024) file.size
    then refused (lit "Certificate file size must be less than 5MB")
    else valid

-- For a value that is a text; `!value` is covered by the missing and the empty one.
unfoldable pub is_required : Option Text → (field_name : Text) → Option Text
unfolding is_empty trim
is_required none field_name = some (field_name ++ lit " is required")
is_required (some value) field_name =
    if is_empty (trim value) then some (field_name ++ lit " is required") else none

-- For the value of an input of type "number": empty, or a finite number.
unfoldable pub validate_amount : Option ℤ → Option Text
validate_amount none = some (lit "Amount is required")
validate_amount (some (negsuc n)) = some (lit "Amount must be greater than zero")
validate_amount (some (pos n)) =
    if n == 0 then some (lit "Amount must be greater than zero") else none
