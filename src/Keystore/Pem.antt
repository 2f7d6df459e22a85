-- ===== src/Keystore/Pem.antt =====
-- frontend/src/utils/platformKeystore.js: importing a private key from a PEM file.
pub mod Armour
use hybrid_quantum_cryptogra.Prelude.{
  ℕ, zero, suc, ◌≡◌, Bool, true, false, not, ◌||◌, ◌&&◌, Option, none, some, List, [], ◌∷◌, length,
  if◌then◌else◌, ◌==◌,
}
use hybrid_quantum_cryptogra.Js.{
  Text, lit, trim, is_space, contains, Thrown, error, Result, ok, throw, ◌>>=◌, ◌>>◌,
}
use hybrid_quantum_cryptogra.Keystore.Platform.{Bytes, Browser, Environment, get_subtle_crypto}

-- What follows a prefix.
after_prefix : Text → Text → Option Text
after_prefix [] s = some s
after_prefix (p ∷ prefix) [] = none
after_prefix (p ∷ prefix) (c ∷ s) =
    let rest = after_prefix prefix s in if p == c then rest else none

is_label_end : Text → Bool
is_label_end [] = true
is_label_end (d ∷ t) = d == b'-'

-- `[^-]+-----`: since the label holds no dash, it ends at the first one.
after_label : Text → Option Text
unfolding after_prefix is_label_end
after_label [] = none
after_label (c ∷ s) =
    let rest = after_label s in
    if c == b'-' then none else if is_label_end s then after_prefix (lit "-----") s else rest

-- What follows a match at the start of `-----BEGIN [^-]+-----`, or of the pattern with `END`.
after_marker : Text → Text → Option Text
unfolding after_prefix after_label
after_marker opening s = elim (after_prefix opening s) [
  | none ↦ none
  | some label ↦ after_label label
]

-- `s.replace(pattern, "")` for all matches. A match takes at least a unit, so the length of the text
-- is enough fuel.
strip_markers : ℕ → Text → Text → Text
unfolding after_marker
strip_markers zero opening s = s
strip_markers (suc fuel) opening [] = []
strip_markers (suc fuel) opening (c ∷ s) = elim (after_marker opening (c ∷ s)) [
  | some rest ↦ strip_markers fuel opening rest
  | none ↦ c ∷ strip_markers fuel opening s
]

-- `s.replace(/\s+/g, "")`
unfoldable pub without_space : Text → Text
without_space [] = []
without_space (c ∷ s) = let rest = without_space s in if is_space c then rest else c ∷ rest

strip_all : Text → Text → Text
unfolding strip_markers
strip_all opening s = strip_markers (length s) opening s

pem_body : Text → Text
unfolding strip_all without_space
pem_body normalized =
    without_space (strip_all (lit "-----END ") (strip_all (lit "-----BEGIN ") normalized))

module _ (browser : Browser) (encoding_error : Thrown) where
  decoded : Option Bytes → Result Bytes
  decoded none = throw encoding_error
  decoded (some bytes) = ok bytes

  -- `encoding_error` is what `atob` throws.
  unfoldable pub pem_body_to_array_buffer : Text → Result Bytes
  unfolding pem_body decoded
  pem_body_to_array_buffer pem_text =
      if not (contains (lit "BEGIN") (trim pem_text)) || not (contains (lit "END") (trim pem_text))
      then throw (error (lit "Invalid PEM format"))
      else decoded (Browser.atob browser (pem_body (trim pem_text)))

  unfoldable pub import_private_key_from_pem :
      Environment
      → (import_key : Bytes → Result (Browser.Key browser)) → Text
      → Result (Browser.Key browser)
  unfolding get_subtle_crypto pem_body_to_array_buffer
  import_private_key_from_pem env import_key pem_text =
      get_subtle_crypto env >> (pem_body_to_array_buffer pem_text >>= import_key)
