-- ===== src/Login/Certificate.antt =====
-- frontend/src/context/AuthContext.jsx: `loginWithCertificate`.
use hybrid_quantum_cryptogra.Prelude.{Bool, not, ◌&&◌, Option, none, some, if◌then◌else◌, String}
use hybrid_quantum_cryptogra.Js.{
  Text, lit, text_eq, is_empty, Thrown, type_error, error, Result, ok, throw,
}
use hybrid_quantum_cryptogra.Roles.{User}
use hybrid_quantum_cryptogra.Actions.{Action, ◌>>=◌, ◌>>◌, returns, reads, lift, demand, catches}
use hybrid_quantum_cryptogra.Certificates.{
  Fields, parse_certificate_text, certificate_id_of, device_id_of,
}
use hybrid_quantum_cryptogra.Keystore.Platform.{Browser}
use hybrid_quantum_cryptogra.Keystore.{Records, enroll_platform_key, ensure_platform_key}
use hybrid_quantum_cryptogra.Keystore.Signing.{sign_with_platform_key}
use hybrid_quantum_cryptogra.Keystore.Pem.{import_private_key_from_pem}
use hybrid_quantum_cryptogra.Login.Parts.{
  Upload, Challenge, Proof, Server, Crypto, Device, call, complete, is_supported,
  derive_device_id_legacy, nonce_bytes, challenge_message, device_proof_of,
  require_stored_device_secret,
}

-- `new Error(e.message || fallback)`. A `TypeError` has a message of the engine's own.
unfoldable pub reworded : (engine_message : Text) → Thrown → String → Thrown
reworded engine_message type_error fallback =
    if is_empty engine_message then error (lit fallback) else error engine_message
reworded engine_message (error message) fallback =
    if is_empty message then error (lit fallback) else error message

module _ {browser : Browser} (crypto : Crypto browser) (server : Server) where
  open crypto use {env, sign, import_key, fresh, iv, now, encoding_error, engine_message}

  -- A change of the keystore.
  unfoldable pub storing :
      (Records browser → Result (Records browser)) → Action (Device browser) (Unit {0})
  storing f d = elim (f d.records) [
    | ok records ↦ (ok tt, record d { records = records })
    | throw e ↦ (throw e, d)
  ]

  -- The file of a private key, imported and enrolled, with a secret where one is given.
  unfoldable pub enroll_from : Text → Option Text → Upload → Action (Device browser) (Unit {0})
  enroll_from certificate_id secret file = do
    pem ← lift file.contents
    key ← lift (import_private_key_from_pem browser encoding_error env import_key pem)
    storing (enroll_platform_key browser env fresh iv certificate_id (some key) secret now)

  unfoldable pub enroll_given : Text → Text → Option Upload → Action (Device browser) (Unit {0})
  unfolding enroll_from reworded
  enroll_given certificate_id secret none = returns tt
  enroll_given certificate_id secret (some file) =
      catches (enroll_from certificate_id (some secret) file) (λ e.
        lift
          (throw (reworded engine_message e "Unable to import private key for this certificate.")))

  missing_key : Option Upload → Thrown
  missing_key (some file) = error (
      lit
        "Key enrollment failed after importing private key. Please reload the page and try again.")
  missing_key none = error (
      lit
        "Private key not found in browser. Click 'Need to re-enroll secure keys?' below and provide your private key (.pem) file to continue.")

  unfoldable pub ensured_key : Text → Option Upload → Action (Device browser) (Browser.Key browser)
  unfolding missing_key
  ensured_key certificate_id key_file =
      catches (reads (λ d. ensure_platform_key browser env certificate_id d.records))
        (λ e. lift (throw (missing_key key_file)))

  -- The identifier of the device: the certificate's, or else the one that the secret gives.
  unfoldable pub bound_device_id : Fields → Text → Text
  bound_device_id fields secret =
      if is_empty (device_id_of fields)
      then derive_device_id_legacy crypto secret
      else device_id_of fields

  unfoldable pub is_mismatch : Fields → Text → Bool
  is_mismatch fields derived =
      not (is_empty (device_id_of fields)) && not (text_eq (device_id_of fields) derived)

  -- The answer to a challenge.
  unfoldable pub proof_of : Text → Text → Text → Challenge → Action (Device browser) Proof
  proof_of certificate_id device_id secret challenge = do
    nonce ← lift (nonce_bytes crypto challenge)
    rsa_signature ← reads (λ d.
        sign_with_platform_key browser sign env certificate_id
          (challenge_message crypto nonce device_id) d.records)
    returns (record {
      challenge_token = challenge.challenge_token;
      device_id = device_id;
      device_proof = device_proof_of crypto secret nonce;
      rsa_signature = rsa_signature;
    })

  -- From the certificate's identifier on.
  unfoldable pub prove_certificate :
      Text → Fields → Option Upload → Text → Action (Device browser) Proof
  unfolding enroll_given ensured_key bound_device_id is_mismatch proof_of
  prove_certificate certificate_id fields key_file manual_device_secret = do
    secret ←
        reads
          (λ d. require_stored_device_secret crypto certificate_id manual_device_secret d.records)
    let device_id = bound_device_id fields secret
    demand (not (is_empty device_id)) "Unable to determine the device binding identifier"
    demand (not (is_mismatch fields device_id))
        "Secure device binding mismatch detected for this certificate"
    challenge ← call (server.certificate_challenge certificate_id device_id)
    demand (is_supported challenge) "Unsupported certificate binding mode"
    enroll_given certificate_id secret key_file
    ensured_key certificate_id key_file
    proof_of certificate_id device_id secret challenge

  unfoldable pub certificate_proof : Upload → Option Upload → Text → Action (Device browser) Proof
  unfolding prove_certificate
  certificate_proof file key_file manual_device_secret = do
    text ← lift file.contents
    let fields = parse_certificate_text text
    let certificate_id = certificate_id_of fields file.name
    demand (not (is_empty certificate_id)) "Certificate missing certificate_id field"
    prove_certificate certificate_id fields key_file manual_device_secret

  unfoldable pub login_with_certificate :
      Option Upload → Option Upload → Text → Action (Device browser) (Option User)
  unfolding certificate_proof call complete
  login_with_certificate none key_file manual_device_secret =
      lift (throw (error (lit "Certificate file required")))
  login_with_certificate (some file) key_file manual_device_secret = do
    proof ← certificate_proof file key_file manual_device_secret
    session ← call (server.certificate_login proof)
    complete server.verify_session session
