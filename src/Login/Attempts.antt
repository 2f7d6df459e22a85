-- ===== src/Login/Attempts.antt =====
-- frontend/src/context/AuthContext.jsx: a login by either way.
use hybrid_quantum_cryptogra.Prelude.{Option}
use hybrid_quantum_cryptogra.Js.{Text}
use hybrid_quantum_cryptogra.Roles.{User}
use hybrid_quantum_cryptogra.Actions.{Action}
use hybrid_quantum_cryptogra.Session.{Login, Reply}
use hybrid_quantum_cryptogra.Keystore.Platform.{Browser}
use hybrid_quantum_cryptogra.Login.Parts.{Upload, Proof, Server, Crypto, Device}
use hybrid_quantum_cryptogra.Login.Certificate.{login_with_certificate}
use hybrid_quantum_cryptogra.Login.QrCode.{login_with_qr_code}

pub data Attempt : Type 0 where
  by_certificate : (file key_file : Option Upload) (manual_device_secret : Text) → Attempt
  by_qr_code : (certificate_id cert_hash : Text) (key_file : Option Upload) → Attempt

module _ {browser : Browser} (crypto : Crypto browser) (server : Server) where
  unfoldable pub log_in : Attempt → Action (Device browser) (Option User)
  unfolding login_with_certificate login_with_qr_code
  log_in (by_certificate file key_file manual_device_secret) =
      login_with_certificate crypto server file key_file manual_device_secret
  log_in (by_qr_code certificate_id cert_hash key_file) =
      login_with_qr_code crypto server certificate_id cert_hash key_file

-- The answer of the server to the proof of an attempt.
abbrev pub verdict : Server → Attempt → Proof → Reply Login
verdict server (by_certificate file key_file manual_device_secret) proof =
    server.certificate_login proof
verdict server (by_qr_code certificate_id cert_hash key_file) proof = server.qr_login proof
