-- ===== src/Keystore/Platform.antt =====
-- frontend/src/utils/platformKeystore.js: what the keystore needs of the browser, the checks of the
-- environment, and the object store of the database.
--
-- WebCrypto, the text encoder and base64 are the browser's: a parameter, with their documented laws.

use hybrid_quantum_cryptogra.Prelude.{
  ℕ, ◌<◌, ◌≡◌, ◌≢◌, Bool, false, Option, none, some, List, [], ◌∷◌, if◌then◌else◌, All, String,
}
use hybrid_quantum_cryptogra.Js.{
  Text, lit, text_eq, is_empty, Thrown, error, Result, ok, throw, ◌>>◌,
}

abbrev pub Bytes : Type 0
Bytes = List ℕ

abbrev pub IsBytes : Bytes → Type 0
IsBytes bytes = All (λ b. b < 256) bytes

-- What the browser provides. The keys are those of AES-GCM; `decrypt` fails where the tag does not
-- fit; `btoa` and `atob` are base64 over texts whose units are bytes.
pub record Browser : Type 1 where
  pub Key : Type 0
  pub encrypt : Key → (iv : Bytes) → Bytes → Bytes
  pub decrypt : Key → (iv : Bytes) → Bytes → Option Bytes
  pub encode : Text → Bytes
  pub decode : Bytes → Text
  pub btoa : Bytes → Text
  pub atob : Text → Option Bytes
  pub encode-IsBytes : (s : Text) → IsBytes (encode s)
  pub decrypt-encrypt :
      (k : Key) (iv m : Bytes) → IsBytes m → decrypt k iv (encrypt k iv m) ≡ some m
  pub encrypt-IsBytes : (k : Key) (iv m : Bytes) → IsBytes m → IsBytes (encrypt k iv m)
  -- The ciphertext ends with the tag.
  pub encrypt-ne-nil : (k : Key) (iv m : Bytes) → encrypt k iv m ≢ []
  pub atob-btoa : (bytes : Bytes) → IsBytes bytes → atob (btoa bytes) ≡ some bytes
  pub btoa-ne-nil : (bytes : Bytes) → bytes ≢ [] → is_empty (btoa bytes) ≡ false

-- Whether the page may use the keystore, and the errors that reading and writing end with, if any.
pub record Environment : Type 0 where
  pub has_storage : Bool
  pub is_secure_context : Bool
  pub has_subtle : Bool
  pub read_error : Option Thrown
  pub write_error : Option Thrown

unfoldable pub ensure_secure_context : Environment → Result (Unit {0})
ensure_secure_context env =
    if env.has_storage
    then if env.is_secure_context
      then ok tt
      else throw (error (lit "Hardware-backed key storage requires HTTPS / secure context"))
    else throw (error (lit "Secure storage unavailable in this environment"))

require : Bool → String → Result (Unit {0})
require passed message = if passed then ok tt else throw (error (lit message))

unfoldable pub get_subtle_crypto : Environment → Result (Unit {0})
unfolding ensure_secure_context require
get_subtle_crypto env = do
  ensure_secure_context env
  require env.has_subtle "WebCrypto APIs are unavailable in this browser"

unfoldable pub fail_with : Option Thrown → Result (Unit {0})
fail_with none = ok tt
fail_with (some e) = throw e

-- An object store of the database: `get`, `put` and `delete`.
module _ {ℓ} {R : Type ℓ} where
  unfoldable pub get : Text → List (Text × R) → Option R
  get id [] = none
  get id ((k, r) ∷ records) = if text_eq k id then some r else get id records

  unfoldable pub put : Text → R → List (Text × R) → List (Text × R)
  put id r [] = (id, r) ∷ []
  put id r ((k, old) ∷ records) =
      if text_eq k id then (id, r) ∷ records else (k, old) ∷ put id r records

  unfoldable pub delete : Text → List (Text × R) → List (Text × R)
  delete id [] = []
  delete id ((k, r) ∷ records) =
      if text_eq k id then delete id records else (k, r) ∷ delete id records
