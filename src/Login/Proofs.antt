-- ===== src/Login/Proofs.antt =====
-- frontend/src/context/AuthContext.jsx: a login that returns was accepted by the server.
use hybrid_quantum_cryptogra.Prelude.{◌≡◌, refl, subst, true, sym, ap, ◌∙◌, Option, none, some}
use hybrid_quantum_cryptogra.Js.{Text, lit, Result, trim, ok, throw-ne-ok, ok-injective}
use hybrid_quantum_cryptogra.Roles.{User}
use hybrid_quantum_cryptogra.Actions.{
  >>=-eq-returned, lift->>=-eq-returned, reads->>=-eq-returned, demand->>=-eq-returned, ◌>>=◌, lift,
  returns, catches,
}
use hybrid_quantum_cryptogra.Session.{
  Login, Reply, answered, refused, unreachable, result_of, complete_login,
}
use hybrid_quantum_cryptogra.Keystore.Platform.{Bytes, Browser}
use hybrid_quantum_cryptogra.Keystore.{Records, array_buffer_to_base64, ensure_platform_key}
use hybrid_quantum_cryptogra.Certificates.{parse_certificate_text, certificate_id_of}
use hybrid_quantum_cryptogra.Keystore.Signing.{sign_with_platform_key-eq-ok}
use hybrid_quantum_cryptogra.Login.Parts.{
  is_supported, derive_device_id_legacy, require_stored_device_secret, Upload, Challenge,
  nonce_bytes, challenge_message, device_proof_of, Proof, Server, Crypto, Device, call, complete,
}
use hybrid_quantum_cryptogra.Login.Certificate.{
  certificate_proof, proof_of, prove_certificate, bound_device_id, enroll_given, ensured_key,
}
use hybrid_quantum_cryptogra.Login.QrCode.{qr_proof}
use hybrid_quantum_cryptogra.Login.Attempts.{Attempt, by_certificate, by_qr_code, log_in, verdict}

result_of-eq-ok :
    {A : Type 0} (reply : Reply A) {a : A} → result_of reply ≡ ok a → reply ≡ answered a
unfolding result_of
result_of-eq-ok (answered b) e = cc
result_of-eq-ok (refused status) e = cc
result_of-eq-ok unreachable e = cc

module _ {browser : Browser} (crypto : Crypto browser) (server : Server) where
  open crypto use {sign}

  -- What a proof has to be for: the certificate that the attempt names, and the device that its fields and the
  -- secret give.
  abbrev pub IsFor : Attempt → (certificate_id device_id secret : Text) → Type 0
  IsFor (by_certificate none key_file manual) id device_id secret = ⊥
  IsFor (by_certificate (some file) key_file manual) id device_id secret =
      (text : Text) × (file.contents ≡ ok text)
      × (id ≡ certificate_id_of (parse_certificate_text text) file.name)
      × (device_id ≡ bound_device_id crypto server (parse_certificate_text text) secret)
  IsFor (by_qr_code certificate_id cert_hash key_file) id device_id secret =
      (id ≡ trim certificate_id) × (device_id ≡ derive_device_id_legacy crypto secret)

  -- The server's challenge for it.
  abbrev pub asked_for : Attempt → (certificate_id device_id : Text) → Reply Challenge
  asked_for (by_certificate file key_file manual) id device_id =
      server.certificate_challenge id device_id
  asked_for (by_qr_code certificate_id cert_hash key_file) id device_id =
      server.qr_challenge id (trim cert_hash)

  -- The device secret: the one that was entered, or else the one that the keystore had before the login, for
  -- a QR code once a missing key was enrolled.
  abbrev pub secret_for :
      Attempt → (certificate_id : Text) → (before after : Records browser) → Result Text
  secret_for (by_certificate file key_file manual) id before after =
      require_stored_device_secret crypto id manual before
  secret_for (by_qr_code certificate_id cert_hash key_file) id before after =
      require_stored_device_secret crypto id (lit "") after

  -- A proof that answers the server's challenge: its signature is made by the key that the keystore holds for
  -- the certificate, over the challenge's nonce and the device, and the device proof from the device secret
  -- and the nonce.
  pub record Answers (attempt : Attempt) (before after : Records browser) (proof : Proof)
      : Type 0 where
    pub certificate_id : Text
    pub secret : Text
    pub challenge : Challenge
    pub nonce : Bytes
    pub key : Browser.Key browser
    pub is_for : IsFor attempt certificate_id proof.device_id secret
    pub known : secret_for attempt certificate_id before after ≡ ok secret
    pub asked : asked_for attempt certificate_id proof.device_id ≡ answered challenge
    pub supported : is_supported challenge ≡ true
    pub opened : nonce_bytes crypto challenge ≡ ok nonce
    pub held : ensure_platform_key browser crypto.env certificate_id after ≡ ok key
    pub same_token : proof.challenge_token ≡ challenge.challenge_token
    pub by_key :
        proof.rsa_signature
        ≡ array_buffer_to_base64 browser (sign key (challenge_message crypto nonce proof.device_id))
    pub by_secret : proof.device_proof ≡ device_proof_of crypto secret nonce

  -- What the last part of a proof comes to.
  record Signed (id device_id secret : Text) (challenge : Challenge) (after : Records browser)
      (proof : Proof) : Type 0 where
    nonce : Bytes
    key : Browser.Key browser
    opened : nonce_bytes crypto challenge ≡ ok nonce
    held : ensure_platform_key browser crypto.env id after ≡ ok key
    made : proof ≡ record {
      challenge_token = challenge.challenge_token;
      device_id = device_id;
      device_proof = device_proof_of crypto secret nonce;
      rsa_signature =
          array_buffer_to_base64 browser (sign key (challenge_message crypto nonce device_id));
    }

  proof_of-Signed :
      (id device_id secret : Text) (challenge : Challenge) (d : Device browser) {proof : Proof}
      {d' : Device browser}
      → proof_of crypto server id device_id secret challenge d ≡ (ok proof, d')
      → Signed id device_id secret challenge d'.records proof × (d ≡ d')
  unfolding proof_of returns
  proof_of-Signed id device_id secret challenge d e =
      let (nonce, opened, rest) = lift->>=-eq-returned (nonce_bytes crypto challenge) _ d e in
      let (signature, read, last) = reads->>=-eq-returned _ _ d rest in
      let (key, held, by_key) =
        sign_with_platform_key-eq-ok browser sign (crypto.env) id
          (challenge_message crypto nonce device_id) d.records read in
      (
        record {
          nonce = nonce;
          key = key;
          opened = opened;
          held =
              subst
                (λ (t : Device browser).
                  ensure_platform_key browser crypto.env id t.records ≡ ok key)
                (ap (λ r. r.1) last) held;
          made =
              sym (ok-injective (ap (λ r. r.0) last))
              ∙ ap
                  (λ (s : Text). record {
                    challenge_token = challenge.challenge_token;
                    device_id = device_id;
                    device_proof = device_proof_of crypto secret nonce;
                    rsa_signature = s;
                  })
                  by_key;
        },
        ap (λ r. r.1) last,
      )

  Signed-Answers :
      (attempt : Attempt) (id device_id secret : Text) (challenge : Challenge)
      (before after : Records browser) (proof : Proof)
      → IsFor attempt id device_id secret
      → secret_for attempt id before after ≡ ok secret
      → asked_for attempt id device_id ≡ answered challenge
      → is_supported challenge ≡ true
      → Signed id device_id secret challenge after proof
      → Answers attempt before after proof
  Signed-Answers attempt id device_id secret challenge before after proof is_for known asked
        supported s =
      subst (Answers attempt before after) (sym s.made) (record {
        certificate_id = id;
        secret = secret;
        challenge = challenge;
        nonce = s.nonce;
        key = s.key;
        is_for = is_for;
        known = known;
        asked = asked;
        supported = supported;
        opened = s.opened;
        held = s.held;
        same_token = refl;
        by_key = refl;
        by_secret = refl;
      })

  called :
      {A : Type 0} (reply : Reply A) (d : Device browser) {a : A} {d' : Device browser}
      → call reply d ≡ (ok a, d')
      → (reply ≡ answered a) × (d.records ≡ d'.records)
  unfolding call
  called reply d e = (result_of-eq-ok reply (ap (λ r. r.0) e), ap (λ r. Device.records r.1) e)

  certificate_proof-Answers :
      (file : Upload) (key_file : Option Upload) (manual : Text) (d : Device browser)
      {proof : Proof} {d' : Device browser}
      → certificate_proof crypto server file key_file manual d ≡ (ok proof, d')
      → Answers (by_certificate (some file) key_file manual) d.records d'.records proof
  unfolding certificate_proof prove_certificate
  certificate_proof-Answers file key_file manual d {proof} {d'} e =
      let (text, opened, named) = lift->>=-eq-returned file.contents _ d e in
      let (given, started) = demand->>=-eq-returned _ _ _ d named in
      let (secret, known, bound) = reads->>=-eq-returned _ _ d started in
      let (device_given, compared) = demand->>=-eq-returned _ _ _ d bound in
      let (matched, asking) = demand->>=-eq-returned _ _ _ d compared in
      let (challenge, asked, answer, checked) = >>=-eq-returned (call _) _ d asking in
      let (supported, enrolling) = demand->>=-eq-returned _ _ _ asked checked in
      let (enrolled, after_enrolling, _, ensuring) =
        >>=-eq-returned (enroll_given crypto server _ secret key_file) _ asked enrolling in
      let (ensured, after_ensuring, _, signing) =
        >>=-eq-returned (ensured_key crypto server _ key_file) _ after_enrolling ensuring in
      Signed-Answers (by_certificate (some file) key_file manual) _ _ secret challenge d.records
        d'.records proof (text, opened, refl, refl) known (called _ d answer).0 supported
        (proof_of-Signed _ _ secret challenge after_ensuring signing).0

  qr_proof-Answers :
      (certificate_id cert_hash : Text) (key_file : Option Upload) (before : Records browser)
      (d : Device browser) {proof : Proof} {d' : Device browser}
      → qr_proof crypto server (trim certificate_id) (trim cert_hash) key_file d ≡ (ok proof, d')
      → Answers (by_qr_code certificate_id cert_hash key_file) before d'.records proof
  unfolding qr_proof
  qr_proof-Answers certificate_id cert_hash key_file before d {proof} {d'} e =
      let id = trim certificate_id in
      let (challenge, asked, answer, looking) =
        >>=-eq-returned (call (server.qr_challenge id (trim cert_hash))) _ d e in
      let (found, ready, _, checking) = >>=-eq-returned (catches _ _) _ asked looking in
      let (supported, naming) = demand->>=-eq-returned _ _ _ ready checking in
      let (names, reading) = demand->>=-eq-returned _ _ _ ready naming in
      let (secret, known, comparing) = reads->>=-eq-returned _ _ ready reading in
      let (matches, signing) = demand->>=-eq-returned _ _ _ ready comparing in
      let (signed, same) =
        proof_of-Signed id (derive_device_id_legacy crypto secret) secret challenge ready signing in
      Signed-Answers (by_qr_code certificate_id cert_hash key_file) id
        (derive_device_id_legacy crypto secret) secret challenge before d'.records proof
        (refl, refl)
        (subst
          (λ (t : Device browser).
            require_stored_device_secret crypto id (lit "") t.records ≡ ok secret)
          same known)
        (called _ d answer).0 supported signed

  -- The end of a login, from a proof on.
  submitted :
      (reply : Reply Login) (d : Device browser) {user : Option User} {t : Device browser}
      → (call reply >>= complete server.verify_session) d ≡ (ok user, t)
      → (session : Login) × (reply ≡ answered session)
        × (user ≡ session.user)
        × (d.records ≡ t.records)
  unfolding complete complete_login
  submitted reply d e =
      let (session, d', answer, rest) =
        >>=-eq-returned (call reply) (complete server.verify_session) d e in
      (
        session,
        (called reply d answer).0,
        sym (ok-injective (ap (λ r. r.0) rest)),
        (called reply d answer).1 ∙ ap (λ r. Device.records r.1) rest,
      )

  accepted :
      (attempt : Attempt) (before : Records browser) (d : Device browser) (proof : Proof)
      {user : Option User} {t : Device browser}
      → Answers attempt before d.records proof
      → (call (verdict server attempt proof) >>= complete server.verify_session) d ≡ (ok user, t)
      → (proof : Proof) × Answers attempt before t.records proof
        × ((session : Login) × (verdict server attempt proof ≡ answered session)
            × (user ≡ session.user))
  accepted attempt before d proof answers e =
      let (session, answer, same, kept) = submitted (verdict server attempt proof) d e in
      (
        proof,
        subst (λ records. Answers attempt before records proof) kept answers,
        (session, answer, same),
      )

  returned_Answers :
      (attempt : Attempt) (d : Device browser) {user : Option User} {t : Device browser}
      → log_in crypto server attempt d ≡ (ok user, t)
      → (proof : Proof) × Answers attempt d.records t.records proof
        × ((session : Login) × (verdict server attempt proof ≡ answered session)
            × (user ≡ session.user))
  unfolding log_in
  returned_Answers (by_certificate none key_file manual) d e =
      unfold lift in absurd (throw-ne-ok (ap (λ r. r.0) e))
  returned_Answers (by_certificate (some file) key_file manual) d e =
      let (proof, d', made, rest) =
        >>=-eq-returned (certificate_proof crypto server file key_file manual) _ d e in
      accepted (by_certificate (some file) key_file manual) d.records d' proof
        (certificate_proof-Answers file key_file manual d made) rest
  returned_Answers (by_qr_code id cert_hash key_file) d e =
      let (given, following) = demand->>=-eq-returned _ _ _ d e in
      let (proof, d', made, rest) =
        >>=-eq-returned (qr_proof crypto server (trim id) (trim cert_hash) key_file) _ d
          following in
      accepted (by_qr_code id cert_hash key_file) d.records d' proof
        (qr_proof-Answers id cert_hash key_file d.records d made) rest

  -- A login that returns has sent a proof that the server accepted, and returns the user of the server's
  -- answer. The proof answers the server's challenge for the certificate that was named, and for the device
  -- of its fields and the secret: it is signed with the key that the keystore holds for that certificate
  -- after the login, and made with the device secret that was entered or stored.
  pub log_in-Answers :
      (attempt : Attempt) (d : Device browser) (user : Option User)
      → (log_in crypto server attempt d).0 ≡ ok user
      → (proof : Proof) × Answers attempt d.records
          (Device.records (log_in crypto server attempt d).1)
          proof
        × ((session : Login) × (verdict server attempt proof ≡ answered session)
            × (user ≡ session.user))
  log_in-Answers attempt d user e =
      returned_Answers attempt d (ap (λ r. (r, (log_in crypto server attempt d).1)) e)
