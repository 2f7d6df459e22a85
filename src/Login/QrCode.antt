-- ===== src/Login/QrCode.antt =====
-- frontend/src/context/AuthContext.jsx: `loginWithQrCode`.
use hybrid_quantum_cryptogra.Prelude.{Bool, true, false, not, ◌||◌, Option, none, some}
use hybrid_quantum_cryptogra.Js.{Text, lit, text_eq, trim, is_empty, Thrown, throw}
use hybrid_quantum_cryptogra.Roles.{User, truthy}
use hybrid_quantum_cryptogra.Actions.{Action, ◌>>=◌, ◌>>◌, returns, reads, lift, demand, catches}
use hybrid_quantum_cryptogra.Keystore.Platform.{Browser}
use hybrid_quantum_cryptogra.Keystore.{ensure_platform_key}
use hybrid_quantum_cryptogra.Login.Parts.{
  Upload, Challenge, Proof, Server, Crypto, Device, call, complete, is_supported,
  derive_device_id_legacy, require_stored_device_secret,
}
use hybrid_quantum_cryptogra.Login.Certificate.{reworded, enroll_from, proof_of}

module _ {browser : Browser} (crypto : Crypto browser) (server : Server) where
  open crypto use {env, engine_message}

  -- A key that is missing is enrolled from the file, without a secret.
  unfoldable pub key_or_enroll : Text → Option Upload → Thrown → Action (Device browser) (Unit {0})
  unfolding enroll_from reworded
  key_or_enroll certificate_id none e = lift (
      throw (
        reworded engine_message e
          "Secure key material missing. Provide the matching private key to re-enroll."))
  key_or_enroll certificate_id (some file) e = enroll_from crypto server certificate_id none file

  unfoldable pub key_available : Text → Action (Device browser) (Unit {0})
  key_available certificate_id = do
    reads (λ d. ensure_platform_key browser env certificate_id d.records)
    returns tt

  device_matches : Challenge → Text → Bool
  device_matches challenge derived = elim (challenge.device_id) [
    | none ↦ false
    | some id ↦ text_eq id derived
  ]

  names_device : Challenge → Bool
  unfolding truthy
  names_device challenge = elim (truthy challenge.device_id) [ none ↦ false | some id ↦ true ]

  unfoldable pub qr_proof : Text → Text → Option Upload → Action (Device browser) Proof
  unfolding key_or_enroll key_available device_matches names_device proof_of
  qr_proof certificate_id cert_hash key_file = do
    challenge ← call (server.qr_challenge certificate_id cert_hash)
    catches (key_available certificate_id) (key_or_enroll certificate_id key_file)
    demand (is_supported challenge) "Unsupported QR binding mode"
    demand (names_device challenge) "QR challenge missing device binding"
    secret ← reads (λ d. require_stored_device_secret crypto certificate_id (lit "") d.records)
    let device_id = derive_device_id_legacy crypto secret
    demand (device_matches challenge device_id) "Device secret does not match this ID card"
    proof_of crypto server certificate_id device_id secret challenge

  -- `trim` of a value that may be missing gives the empty text.
  unfoldable pub login_with_qr_code :
      Text → Text → Option Upload → Action (Device browser) (Option User)
  unfolding qr_proof call complete
  login_with_qr_code certificate_id cert_hash key_file = do
    demand (not (is_empty (trim certificate_id) || is_empty (trim cert_hash)))
        "QR payload missing certificate reference"
    proof ← qr_proof (trim certificate_id) (trim cert_hash) key_file
    session ← call (server.qr_login proof)
    complete server.verify_session session
