-- ===== src/Signup/Returning.antt =====
-- frontend/src/components/auth/CustomerSignup.jsx and frontend/src/context/AuthContext.jsx: a customer who
-- has registered can log in with the file that was downloaded.
use hybrid_quantum_cryptogra.Prelude.{◌≡◌, ◌≢◌, false, true, none, []}
use hybrid_quantum_cryptogra.Js.{Text, is_empty, trim, trim_idem, or_empty, ok}
use hybrid_quantum_cryptogra.Session.{answered}
use hybrid_quantum_cryptogra.Certificates.{parse_certificate_text, certificate_id_of}
use hybrid_quantum_cryptogra.Keystore.Platform.{Bytes, IsBytes, Browser}
use hybrid_quantum_cryptogra.Login.Parts.{
  Upload, Challenge, Server, Crypto, Device, is_supported, nonce_bytes,
}
use hybrid_quantum_cryptogra.Login.Certificate.{bound_device_id, certificate_proof}
use hybrid_quantum_cryptogra.Login.Resumption.{answer_with, enroll_platform_key-certificate_proof}
use hybrid_quantum_cryptogra.Signup.{Signup, Credentials}
use hybrid_quantum_cryptogra.Signup.Submission.{
  Registration, Enrollment, Answer, Maker, handle_submit,
}
use hybrid_quantum_cryptogra.Signup.Enrolled.{Registered}

module _ {browser : Browser} (crypto : Crypto browser) (maker : Maker browser)
    (server : Server) where
  -- The secret of a device, as it is stored.
  abbrev pub stored_secret :
      {ask : Registration → Answer} {s : Signup browser} → Registered crypto maker ask s → Text
  stored_secret r = trim (or_empty (Enrollment.device_secret r.enrollment))

  -- After a registration that went through, the certificate's text alone, in a file that names the
  -- certificate's id, answers the server's challenge with the private key that was generated and the device
  -- secret that the server issued; the device is left as it was. The text encoder keeps the secret, the
  -- initialization vector is a non-empty sequence of bytes, the device identifier is not empty, the binding
  -- mode is supported, and the nonce is base64.
  pub handle_submit-certificate_proof :
      (ask : Registration → Answer) (s : Signup browser) (r : Registered crypto maker ask s)
      (file : Upload) (challenge : Challenge) (nonce : Bytes)
      → file.contents ≡ ok (Credentials.certificate_text r.credentials)
      → certificate_id_of
          (parse_certificate_text (Credentials.certificate_text r.credentials))
          file.name
        ≡ or_empty (Enrollment.certificate_id r.enrollment)
      → browser.decode (browser.encode (stored_secret r)) ≡ stored_secret r
      → IsBytes crypto.iv
      → crypto.iv ≢ []
      → is_empty (
          bound_device_id crypto server
            (parse_certificate_text (Credentials.certificate_text r.credentials))
            (stored_secret r))
        ≡ false
      → server.certificate_challenge (or_empty (Enrollment.certificate_id r.enrollment)) (
          bound_device_id crypto server
            (parse_certificate_text (Credentials.certificate_text r.credentials))
            (stored_secret r))
        ≡ answered challenge
      → is_supported challenge ≡ true
      → nonce_bytes crypto challenge ≡ ok nonce
      → certificate_proof crypto server file none []
          (Signup.device (handle_submit crypto maker ask s).0)
        ≡ (
          ok (
              answer_with crypto server
                (parse_certificate_text (Credentials.certificate_text r.credentials))
                r.pair.private_key
                (stored_secret r)
                challenge
                nonce),
          Signup.device (handle_submit crypto maker ask s).0,
        )
  handle_submit-certificate_proof ask s r file challenge nonce opened named kept iv iv_given bound
        asked supported read =
      let idem : trim (stored_secret r) ≡ stored_secret r = trim_idem _ in
      let done = r.accepted.finished in
      let proved =
        enroll_platform_key-certificate_proof crypto server file r.pair.private_key
          (stored_secret r) (Credentials.certificate_text r.credentials) challenge nonce
          (Signup.device (handle_submit crypto maker ask s).0) (Device.records (Signup.device s))
          opened (rw named done.enrolled) (rw idem r.accepted.secret_given) (rw idem kept) iv
          iv_given (rw idem bound) (rw (named, idem) asked) supported read in
      rw idem at proved
