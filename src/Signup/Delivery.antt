-- ===== src/Signup/Delivery.antt =====
-- frontend/src/components/auth/CustomerSignup.jsx: opening the encrypted certificate that the server
-- delivers. The key is a digest of the server's secret, the password and the certificate's id.
use hybrid_quantum_cryptogra.Prelude.{
  ℕ, ◌+◌, ◌*◌, ◌-◌, leb, Bool, ◌&&◌, ◌||◌, Option, none, some, List, [], ◌∷◌, ◌++◌, if◌then◌else◌,
  filter_by, String,
}
use hybrid_quantum_cryptogra.Js.{Text, lit, is_empty, Thrown, error, Result, ok, throw, ◌>>=◌, ◌>>◌}
use hybrid_quantum_cryptogra.Roles.{truthy}
use hybrid_quantum_cryptogra.Keystore.Platform.{Bytes, Browser}
use hybrid_quantum_cryptogra.Login.Parts.{Crypto}

unfoldable pub is_digit : ℕ → Bool
is_digit c = leb b'0' c && leb c b'9'

-- `/[0-9a-f]/i`
unfoldable pub is_hex : ℕ → Bool
unfolding is_digit
is_hex c = is_digit c || (leb b'a' c && leb c b'f') || (leb b'A' c && leb c b'F')

unfoldable pub hex_value : ℕ → ℕ
unfolding is_digit
hex_value c = if is_digit c then c - 48 else if leb b'a' c then c - 87 else c - 55

-- The bytes of pairs of digits; a last digit alone would be written past the end, which is ignored.
unfoldable pub hex_pairs : Text → Bytes
hex_pairs [] = []
hex_pairs (c ∷ []) = []
hex_pairs (c ∷ d ∷ rest) = (hex_value c * 16 + hex_value d) ∷ hex_pairs rest

unfoldable pub hex_to_bytes : Text → Bytes
hex_to_bytes hex = hex_pairs (filter_by is_hex hex)

unfoldable pub concat_uint8_arrays : List Bytes → Bytes
concat_uint8_arrays [] = []
concat_uint8_arrays (bytes ∷ arrays) = bytes ++ concat_uint8_arrays arrays

-- What the server delivers.
pub record Delivery : Type 0 where
  pub ciphertext : Option Text
  pub nonce : Option Text

unfoldable pub present : Option Text → String → Result Text
unfolding truthy
present text message = elim (truthy text) [ none ↦ throw (error (lit message)) | some t ↦ ok t ]

module _ {browser : Browser} (crypto : Crypto browser) where
  open crypto use {env, sha3_256, encoding_error}
  open browser use {Key, decrypt, encode, decode, atob}

  -- The bytes of a text in base64, `encoding_error` where it is none.
  unfoldable pub base64_to_bytes : Text → Result Bytes
  base64_to_bytes value =
      if is_empty value
      then ok []
      else elim (atob value) [ none ↦ throw encoding_error | some bytes ↦ ok bytes ]

  -- `sha3_256` gives the digest in hexadecimal digits.
  unfoldable pub derive_delivery_key :
      (kyber_crystal password : Text) → (certificate_id : Option Text) → Result Bytes
  unfolding present concat_uint8_arrays
  derive_delivery_key kyber_crystal password certificate_id = do
    crystal ← present (some kyber_crystal) "Delivery bundle missing key derivation materials"
    secret ← present (some password) "Delivery bundle missing key derivation materials"
    id ← present certificate_id "Delivery bundle missing key derivation materials"
    kyber_bytes ← base64_to_bytes crystal
    ok (
        hex_to_bytes
          (sha3_256 (concat_uint8_arrays (kyber_bytes ∷ encode secret ∷ encode id ∷ []))))

  unfoldable pub opened :
      Key → (decryption_error : Thrown) → (nonce ciphertext : Bytes) → Result Text
  opened key decryption_error nonce ciphertext = elim (decrypt key nonce ciphertext) [
    | none ↦ throw decryption_error
    | some bytes ↦ ok (decode bytes)
  ]

  unfoldable pub complete_delivery : Option Delivery → Result (Text × Text)
  unfolding present
  complete_delivery none = throw (error (lit "Encrypted delivery bundle is incomplete"))
  complete_delivery (some delivery) = do
    ciphertext ← present delivery.ciphertext "Encrypted delivery bundle is incomplete"
    nonce ← present delivery.nonce "Encrypted delivery bundle is incomplete"
    ok (ciphertext, nonce)

  unfoldable pub ensure_subtle : Result (Unit {0})
  ensure_subtle =
      if env.has_subtle
      then ok tt
      else throw (error (lit "WebCrypto APIs are unavailable in this browser"))

  -- `import_aes` makes a key of AES-GCM from its bytes.
  unfoldable pub decrypt_delivery_bundle :
      (import_aes : Bytes → Result Key)
      → (decryption_error : Thrown) → Option Delivery
      → (kyber_crystal password : Text) → (certificate_id : Option Text) → Result Text
  unfolding complete_delivery ensure_subtle opened
  decrypt_delivery_bundle import_aes decryption_error delivery kyber_crystal password
        certificate_id =
      do
        bundle ← complete_delivery delivery
        ensure_subtle
        material ← derive_delivery_key kyber_crystal password certificate_id
        key ← import_aes material
        ciphertext ← base64_to_bytes bundle.0
        nonce ← base64_to_bytes bundle.1
        opened key decryption_error nonce ciphertext
