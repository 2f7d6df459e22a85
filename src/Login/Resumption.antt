-- ===== src/Login/Resumption.antt =====
-- frontend/src/context/AuthContext.jsx over frontend/src/utils/platformKeystore.js: once a key and a
-- device secret are enrolled, the certificate file alone is enough to log in.
use hybrid_quantum_cryptogra.Prelude.{◌≡◌, ◌≢◌, refl, not, true, false, none, some, [], arith}
use hybrid_quantum_cryptogra.Js.{
  Text, is_empty, trim, trim_idem, trim-is_empty, or_empty, text_eq_refl, ok,
}
use hybrid_quantum_cryptogra.Actions.{
  >>=_step, reads_step, lift_step, demand_step, catches_step, returns_step,
}
use hybrid_quantum_cryptogra.Session.{Reply, answered, intercept, result_of}
use hybrid_quantum_cryptogra.Certificates.{
  Fields, parse_certificate_text, certificate_id_of, device_id_of,
}
use hybrid_quantum_cryptogra.Keystore.Platform.{Bytes, IsBytes, Browser}
use hybrid_quantum_cryptogra.Keystore.{
  Records, enroll_platform_key, ensure_platform_key, get_stored_device_secret,
  array_buffer_to_base64,
}
use hybrid_quantum_cryptogra.Keystore.Signing.{ensure_platform_key-sign_with_platform_key}
use hybrid_quantum_cryptogra.Keystore.Keys.{
  enroll_platform_key-store_platform_key, enroll_platform_key-ensure_platform_key,
}
use hybrid_quantum_cryptogra.Keystore.Secrets.{store_platform_key-get_stored_device_secret}
use hybrid_quantum_cryptogra.Login.Parts.{
  Upload, Challenge, Proof, Server, Crypto, Device, call, is_supported, nonce_bytes,
  challenge_message, device_proof_of, require_stored_device_secret,
}
use hybrid_quantum_cryptogra.Login.Certificate.{
  bound_device_id, is_mismatch, proof_of, prove_certificate, certificate_proof, enroll_given,
  ensured_key,
}

module _ {browser : Browser} (crypto : Crypto browser) (server : Server) where
  open crypto use {env, sign}

  -- The keystore has a key and a device secret for a certificate, that can be read.
  pub record IsEnrolled (id : Text) (key : Browser.Key browser) (secret : Text)
      (records : Records browser) : Type 0 where
    pub found : get_stored_device_secret browser env id records ≡ ok (some secret)
    pub kept : ensure_platform_key browser env id records ≡ ok key

  -- The proof that answers a challenge with a key and a secret.
  abbrev pub answer_with : Fields → Browser.Key browser → Text → Challenge → Bytes → Proof
  answer_with fields key secret challenge nonce = record {
    challenge_token = challenge.challenge_token;
    device_id = bound_device_id crypto server fields secret;
    device_proof = device_proof_of crypto secret nonce;
    rsa_signature =
        array_buffer_to_base64 browser
          (sign key (challenge_message crypto nonce (bound_device_id crypto server fields secret)));
  }

  call_step :
      {A : Type 0} {reply : Reply A} {a : A} {d : Device browser}
      → reply ≡ answered a
      → call reply d ≡ (ok a, d)
  unfolding call intercept result_of
  call_step e = rw e

  secret_found :
      (id secret : Text) {key : Browser.Key browser} (records : Records browser)
      → IsEnrolled id key secret records
      → trim secret ≡ secret
      → is_empty secret ≡ false
      → require_stored_device_secret crypto id [] records ≡ ok secret
  unfolding require_stored_device_secret is_empty trim or_empty
  secret_found id secret records enrolled trimmed given = rw (enrolled.found, trimmed, given) refl

  matching :
      (fields : Fields) (secret : Text)
      → not (is_mismatch crypto server fields (bound_device_id crypto server fields secret)) ≡ true
  unfolding is_mismatch bound_device_id
  matching fields secret = ground (arith, text_eq_refl (device_id_of fields))

  proved :
      (id : Text) (fields : Fields) (key : Browser.Key browser) (secret : Text)
      (challenge : Challenge) (nonce : Bytes) (d : Device browser)
      → IsEnrolled id key secret d.records
      → trim secret ≡ secret
      → is_empty secret ≡ false
      → is_empty (bound_device_id crypto server fields secret) ≡ false
      → server.certificate_challenge id (bound_device_id crypto server fields secret)
        ≡ answered challenge
      → is_supported challenge ≡ true
      → nonce_bytes crypto challenge ≡ ok nonce
      → prove_certificate crypto server id fields none [] d
        ≡ (ok (answer_with fields key secret challenge nonce), d)
  unfolding prove_certificate enroll_given ensured_key proof_of
  proved id fields key secret challenge nonce d enrolled trimmed given bound asked supported
        opened =
      >>=_step _ _ (reads_step _ (secret_found id secret d.records enrolled trimmed given)) (
        >>=_step _ _ (demand_step _ (rw bound refl)) (
          >>=_step _ _ (demand_step _ (matching fields secret)) (
            >>=_step _ _ (call_step asked) (
              >>=_step _ _ (demand_step _ supported) (
                >>=_step _ _ (returns_step tt d) (
                  >>=_step _ _ (catches_step _ _ (reads_step _ enrolled.kept)) (
                    >>=_step _ _ (lift_step opened) (
                      >>=_step _ _
                        (reads_step _ (
                          ensure_platform_key-sign_with_platform_key browser sign env id _ d.records
                            enrolled.kept))
                        (returns_step _ d)))))))))

  -- Once a key and a device secret are enrolled for a certificate, its file answers the server's challenge
  -- with that key and that secret, trimmed, and no key file nor secret has to be given again; the device is
  -- left as it was. The secret is not blank and one that the text encoder keeps, the initialization vector
  -- a non-empty sequence of bytes, the device identifier not empty, the binding mode supported, and the
  -- nonce base64.
  pub enroll_platform_key-certificate_proof :
      (file : Upload) (key : Browser.Key browser) (secret text : Text) (challenge : Challenge)
      (nonce : Bytes) (d : Device browser) (records : Records browser)
      → file.contents ≡ ok text
      → enroll_platform_key browser env crypto.fresh crypto.iv
          (certificate_id_of (parse_certificate_text text) file.name)
          (some key)
          (some secret)
          crypto.now
          records
        ≡ ok d.records
      → is_empty (trim secret) ≡ false
      → browser.decode (browser.encode (trim secret)) ≡ trim secret
      → IsBytes crypto.iv
      → crypto.iv ≢ []
      → is_empty (bound_device_id crypto server (parse_certificate_text text) (trim secret)) ≡ false
      → server.certificate_challenge
          (certificate_id_of (parse_certificate_text text) file.name)
          (bound_device_id crypto server (parse_certificate_text text) (trim secret))
        ≡ answered challenge
      → is_supported challenge ≡ true
      → nonce_bytes crypto challenge ≡ ok nonce
      → certificate_proof crypto server file none [] d
        ≡ (ok (answer_with (parse_certificate_text text) key (trim secret) challenge nonce), d)
  unfolding certificate_proof
  enroll_platform_key-certificate_proof file key secret text challenge nonce d records opened
        enrolled given kept iv iv_given bound asked supported read =
      let fields = parse_certificate_text text in
      let id = certificate_id_of fields file.name in
      let (named, stored) =
        enroll_platform_key-store_platform_key browser env crypto.fresh crypto.iv id (some secret)
          crypto.now records (some key) enrolled in
      >>=_step _ _ (lift_step opened) (
        >>=_step _ _ (demand_step _ (rw named refl)) (
          proved id fields key (trim secret) challenge nonce d
            (record {
              found =
                  store_platform_key-get_stored_device_secret browser env crypto.fresh crypto.iv id
                    (some key) secret crypto.now records d.records (trim-is_empty secret given) kept
                    iv iv_given stored;
              kept =
                  enroll_platform_key-ensure_platform_key browser env crypto.fresh crypto.iv id key
                    (some secret) crypto.now records d.records enrolled;
            })
            (trim_idem secret) given bound asked supported read))
