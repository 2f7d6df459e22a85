-- ===== src/Login/Parts.antt =====
-- frontend/src/context/AuthContext.jsx: what the two logins share. The state is that of the session and
-- that of the keystore; what the server and the browser do are parameters.
use hybrid_quantum_cryptogra.Prelude.{
  ℕ, ◌+◌, ◌/◌, ◌%◌, Bool, true, Option, none, some, [], ◌∷◌, ◌++◌, if◌then◌else◌, ltb,
}
use hybrid_quantum_cryptogra.Js.{
  Text, lit, text_eq, to_lower_case, trim, is_empty, or_empty, Thrown, error, Result, ok, throw,
}
use hybrid_quantum_cryptogra.Roles.{User, truthy}
use hybrid_quantum_cryptogra.Actions.{Action}
use hybrid_quantum_cryptogra.Session.{
  Client, ServerSession, Login, Reply, intercept, result_of, complete_login,
}
use hybrid_quantum_cryptogra.Keystore.Platform.{Bytes, Browser, Environment}
use hybrid_quantum_cryptogra.Keystore.{Records, get_stored_device_secret}

-- An uploaded file, and what reading it as text comes to.
pub record Upload : Type 0 where
  pub name : Text
  pub contents : Result Text

pub record Challenge : Type 0 where
  pub challenge_token : Text
  pub nonce : Text
  pub binding_mode : Option Text
  pub device_id : Option Text

-- What the final request of a login sends.
pub record Proof : Type 0 where
  pub challenge_token : Text
  pub device_id : Text
  pub device_proof : Text
  pub rsa_signature : Text

-- How the server answers.
pub record Server : Type 0 where
  pub certificate_challenge : (certificate_id device_id : Text) → Reply Challenge
  pub qr_challenge : (certificate_id cert_hash : Text) → Reply Challenge
  pub certificate_login : Proof → Reply Login
  pub qr_login : Proof → Reply Login
  pub verify_session : Reply ServerSession

-- What a login needs of the browser beside the keystore: the digests, signing, the import of a key, a
-- fresh key and initialization vector for a secret, the clock, what `atob` throws, and the message of a
-- `TypeError`.
pub record Crypto (browser : Browser) : Type 0 where
  pub env : Environment
  pub sha256 : Bytes → Bytes
  pub sha3_256 : Bytes → Text
  pub sign : Browser.Key browser → Bytes → Bytes
  pub import_key : Bytes → Result (Browser.Key browser)
  pub fresh : Browser.Key browser
  pub iv : Bytes
  pub now : ℕ
  pub encoding_error : Thrown
  pub engine_message : Text

pub record Device (browser : Browser) : Type 0 where
  pub client : Client
  pub records : Records browser

-- A request through `api`, whose interceptor sees the answer first.
unfoldable pub call : {browser : Browser} {A : Type 0} → Reply A → Action (Device browser) A
call reply d = (result_of reply, record d { client = intercept reply d.client })

-- From the server's acceptance on.
unfoldable pub complete :
    {browser : Browser} → Reply ServerSession → Login → Action (Device browser) (Option User)
complete reply session d =
    let (c, user) = complete_login session reply d.client in (ok user, record d { client = c })

unfoldable pub hex_digit : ℕ → ℕ
hex_digit n = if ltb n 10 then b'0' + n else b'W' + n

-- `b.toString(16).padStart(2, "0")` for each byte.
unfoldable pub buffer_to_hex : Bytes → Text
unfolding hex_digit
buffer_to_hex [] = []
buffer_to_hex (b ∷ bytes) = hex_digit (b / 16) ∷ hex_digit (b % 16) ∷ buffer_to_hex bytes

-- `(challenge.binding_mode || "device_secret").toLowerCase() === "device_secret"`
unfoldable pub is_supported : Challenge → Bool
unfolding truthy to_lower_case
is_supported challenge = elim (truthy challenge.binding_mode) [
  | none ↦ true
  | some mode ↦ text_eq (to_lower_case mode) (lit "device_secret")
]

module _ {browser : Browser} (crypto : Crypto browser) where
  open crypto use {env, sha256, sha3_256, encoding_error}
  open browser use {encode, atob}

  unfoldable pub derive_device_id_legacy : Text → Text
  derive_device_id_legacy secret = buffer_to_hex (sha256 (encode secret))

  unfoldable pub nonce_bytes : Challenge → Result Bytes
  nonce_bytes challenge = elim (atob challenge.nonce) [
    | none ↦ throw encoding_error
    | some bytes ↦ ok bytes
  ]

  unfoldable pub challenge_message : Bytes → (device_id : Text) → Bytes
  challenge_message nonce device_id = nonce ++ encode device_id

  unfoldable pub device_proof_of : (secret : Text) → Bytes → Text
  device_proof_of secret nonce = sha3_256 (encode secret ++ nonce)

  -- A secret that was found, unless it is blank.
  required_secret : Result (Option Text) → Result Text
  required_secret (throw e) = throw e
  required_secret (ok resolved) =
      if is_empty (trim (or_empty resolved))
      then throw (
          error (
            lit
              "Device not registered. Click 'Need to re-enroll secure keys?' below and provide your private key (.pem) and device secret to complete re-enrollment."))
      else ok (trim (or_empty resolved))

  unfoldable pub require_stored_device_secret :
      (certificate_id fallback_secret : Text) → Records browser → Result Text
  unfolding required_secret
  require_stored_device_secret certificate_id fallback_secret records =
      if is_empty (trim fallback_secret)
      then required_secret (get_stored_device_secret browser env certificate_id records)
      else ok (trim fallback_secret)
