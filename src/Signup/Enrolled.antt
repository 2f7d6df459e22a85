-- ===== src/Signup/Enrolled.antt =====
-- frontend/src/components/auth/CustomerSignup.jsx over frontend/src/utils/platformKeystore.js: what has
-- happened where the page announces a registration.
use hybrid_quantum_cryptogra.Prelude.{
  ◌≡◌, ◌≢◌, refl, ap, sym, ◌∙◌, true, false, Option, none, some, List, ◌∷◌, String, arith,
  Option-cases, inl, inr,
}
use hybrid_quantum_cryptogra.Js.{
  Text, trim, is_empty, or_empty, Thrown, error, type_error, Result, ok, throw, Result-cases,
}
use hybrid_quantum_cryptogra.Actions.{◌>>=◌, returns, lift->>=-eq-returned}
use hybrid_quantum_cryptogra.Keystore.Platform.{Browser}
use hybrid_quantum_cryptogra.Keystore.{enroll_platform_key}
use hybrid_quantum_cryptogra.Keystore.Generation.{ClientKeyPair, generate_client_key_pair}
use hybrid_quantum_cryptogra.Login.Parts.{Crypto, Device}
use hybrid_quantum_cryptogra.Signup.{
  Form, Stage, Credentials, Signup, normalized, refusal, Toast, good, problem, toast, failure_toast,
  refused_toast, set_stage, download_certificate_file,
}
use hybrid_quantum_cryptogra.Signup.Delivery.{decrypt_delivery_bundle}
use hybrid_quantum_cryptogra.Signup.Submission.{
  Registration, Enrollment, Answer, issued, declined, lost, Maker, enter, finish, open_bundle,
  given, accept, settle, answered, register, registration_of, refused_with, blocked, handle_submit,
}

-- The page announces success.
abbrev pub Announces : List Toast → Type 0
Announces toasts = (text : Text) × (before : List Toast) × (toasts ≡ good text ∷ before)

failure_toast-ne-good : (e : Thrown) {text : Text} → failure_toast e ≢ good text
unfolding failure_toast
failure_toast-ne-good type_error h = cc
failure_toast-ne-good (error message) h = ground arith

module _ {browser : Browser} (crypto : Crypto browser) (maker : Maker browser) where
  open crypto use {env, fresh, iv, now}
  open maker use {generated, import_aes, decryption_error}

  given-eq-ok :
      (text : Option Text) (message : String) {t : Text}
      → given crypto maker text message ≡ ok t
      → (is_empty t ≡ false) × (t ≡ trim (or_empty text))
  unfolding given
  given-eq-ok text message e = ground arith

  -- What the last part of a registration has done.
  pub record Finished (id : Option Text) (key : Browser.Key browser) (text secret : Text)
      (c : Credentials) (before after : Signup browser) : Type 0 where
    pub named : c.certificate_id ≡ id
    pub text_of : c.certificate_text ≡ text
    pub enrolled :
        enroll_platform_key browser env fresh iv
          (or_empty id)
          (some key)
          (some secret)
          now
          (Device.records before.device)
        ≡ ok (Device.records after.device)

  finish-Finished :
      (form : Form) (key : Browser.Key browser) (id : Option Text) (text secret : Text)
      (s : Signup browser) {c : Credentials} {t : Signup browser}
      → finish crypto maker form key id text secret s ≡ (ok c, t)
      → Finished id key text secret c s t
  unfolding finish ◌>>=◌ returns set_stage download_certificate_file
  finish-Finished form key id text secret s e = ground arith

  -- What has been done with an enrollment that the server issued.
  pub record Accepted (form : Form) (key : Browser.Key browser) (enrollment : Enrollment)
      (c : Credentials) (before after : Signup browser) : Type 0 where
    pub kyber_crystal : Text
    pub secret_given : is_empty (trim (or_empty enrollment.device_secret)) ≡ false
    pub opened :
        decrypt_delivery_bundle crypto import_aes decryption_error enrollment.delivery kyber_crystal
          form.password enrollment.certificate_id
        ≡ ok c.certificate_text
    pub finished :
        Finished enrollment.certificate_id key c.certificate_text
          (trim (or_empty enrollment.device_secret))
          c
          before
          after

  accepted :
      (form : Form) (key : Browser.Key browser) (enrollment : Enrollment)
      (crystal secret text : Text) (s : Signup browser) {c : Credentials} {t : Signup browser}
      → given crypto maker enrollment.device_secret
          "Device secret missing from enrollment. Contact system administrator."
        ≡ ok secret
      → decrypt_delivery_bundle crypto import_aes decryption_error enrollment.delivery crystal
          form.password enrollment.certificate_id
        ≡ ok text
      → Finished enrollment.certificate_id key text secret c (set_stage Stage.decrypting_bundle s) t
      → Accepted form key enrollment c s t
  unfolding set_stage
  accepted form key enrollment crystal secret text s held opened f =
      let (filled, same) = given-eq-ok enrollment.device_secret _ held in
      record {
        kyber_crystal = crystal;
        secret_given = rw (← same) filled;
        opened = opened ∙ ap ok (sym f.text_of);
        finished = record { named = f.named; text_of = refl; enrolled = rw (← same) f.enrolled };
      }

  open_bundle-Accepted :
      (form : Form) (key : Browser.Key browser) (enrollment : Enrollment) (crystal secret : Text)
      (s : Signup browser) {c : Credentials} {t : Signup browser}
      → given crypto maker enrollment.device_secret
          "Device secret missing from enrollment. Contact system administrator."
        ≡ ok secret
      → open_bundle crypto maker form key enrollment crystal secret s ≡ (ok c, t)
      → Accepted form key enrollment c s t
  unfolding open_bundle ◌>>=◌ enter
  open_bundle-Accepted form key enrollment crystal secret s held e =
      let (text, opened, rest) =
        lift->>=-eq-returned
          (decrypt_delivery_bundle crypto import_aes decryption_error enrollment.delivery crystal
            form.password enrollment.certificate_id)
          (λ text. finish crypto maker form key enrollment.certificate_id text secret)
          (set_stage Stage.decrypting_bundle s) e in
      accepted form key enrollment crystal secret text s held opened
        (finish-Finished form key enrollment.certificate_id text secret _ rest)

  accept-Accepted :
      (form : Form) (key : Browser.Key browser) (enrollment : Enrollment) (s : Signup browser)
      {c : Credentials} {t : Signup browser}
      → accept crypto maker form key enrollment s ≡ (ok c, t)
      → Accepted form key enrollment c s t
  unfolding accept
  accept-Accepted form key enrollment s e =
      let (crystal, gave, e1) =
        lift->>=-eq-returned
          (given crypto maker enrollment.kyber_crystal
            "Bank CA did not return a Kyber Crystal secret.")
          _ s e in
      let (secret, held, e2) =
        lift->>=-eq-returned
          (given crypto maker enrollment.device_secret
            "Device secret missing from enrollment. Contact system administrator.")
          (λ device_secret. open_bundle crypto maker form key enrollment crystal device_secret) s
          e1 in
      open_bundle-Accepted form key enrollment crystal secret s held e2

  refused_with-ne-good :
      (message : Option Text) {text : Text} → refused_with crypto maker message ≢ good text
  unfolding refused_with refused_toast
  refused_with-ne-good message h = ground arith

  -- A registration that went through: what was sent, what the server issued, and what was done with it.
  pub record Registered (server : Registration → Answer) (s : Signup browser) : Type 0 where
    pub pair : ClientKeyPair browser
    pub enrollment : Enrollment
    pub credentials : Credentials
    pub made : generate_client_key_pair browser env generated ≡ ok pair
    pub valid : refusal (normalized s.form) ≡ none
    pub sent :
        (handle_submit crypto maker server s).1
        ≡ some (registration_of crypto maker (normalized s.form) pair)
    pub answer : server (registration_of crypto maker (normalized s.form) pair) ≡ issued enrollment
    pub shown : (handle_submit crypto maker server s).0.credential_summary ≡ some credentials
    pub accepted :
        Accepted
          (normalized s.form)
          pair.private_key
          enrollment
          credentials
          s
          (handle_submit crypto maker server s).0

  settle-Announces :
      (r : Result Credentials × Signup browser)
      → Announces (Signup.toasts (settle crypto maker r))
      → (c : Credentials) × (r ≡ (ok c, r.1))
        × (Signup.credential_summary (settle crypto maker r) ≡ some c)
        × (Signup.device (settle crypto maker r) ≡ Signup.device r.1)
  unfolding settle blocked toast set_stage
  settle-Announces (ok c, t) h = (c, refl, refl, refl)
  settle-Announces (throw e, t) (text, before, h) =
      absurd (failure_toast-ne-good e {text = text} (cc h))

  -- What follows the answer of the server.
  record Answered (form : Form) (key : Browser.Key browser) (enrollment : Enrollment)
      (before after : Signup browser) : Type 0 where
    credentials : Credentials
    shown : after.credential_summary ≡ some credentials
    accepted : Accepted form key enrollment credentials before after

  same_device :
      (form : Form) (key : Browser.Key browser) (enrollment : Enrollment) (c : Credentials)
      (s s' t t' : Signup browser)
      → Signup.device s ≡ Signup.device s'
      → Signup.device t ≡ Signup.device t'
      → Accepted form key enrollment c s t
      → Accepted form key enrollment c s' t'
  same_device form key enrollment c s s' t t' same same' a = record {
    kyber_crystal = a.kyber_crystal;
    secret_given = a.secret_given;
    opened = a.opened;
    finished = record {
      named = a.finished.named;
      text_of = a.finished.text_of;
      enrolled = rw (← same) (rw (← same') a.finished.enrolled);
    };
  }

  answered-Answered :
      (form : Form) (key : Browser.Key browser) (reply : Answer) (s : Signup browser)
      → Announces (Signup.toasts (answered crypto maker form key reply s))
      → (enrollment : Enrollment) × (reply ≡ issued enrollment)
        × Answered form key enrollment s (answered crypto maker form key reply s)
  unfolding answered blocked toast set_stage
  answered-Answered form key (issued enrollment) s h =
      let (c, run, shown, device) =
        settle-Announces (accept crypto maker form key enrollment s) h in
      (
        enrollment,
        refl,
        record {
          credentials = c;
          shown = shown;
          accepted =
              same_device form key enrollment c s s _ _ refl (sym device)
                (accept-Accepted form key enrollment s run);
        },
      )
  answered-Answered form key (declined status message) s (text, before, h) =
      absurd (refused_with-ne-good message {text = text} (cc h))
  answered-Answered form key lost s (text, before, h) = cc

  -- The form while it is being sent.
  started : Signup browser → Signup browser
  started s = record s {
    credential_summary = none;
    signup_stage = Stage.sending_request;
    loading = true;
  }

  refused_submit :
      (server : Registration → Answer) (s : Signup browser) {message : Text}
      → refusal (normalized s.form) ≡ some message
      → Signup.toasts (handle_submit crypto maker server s).0 ≡ problem message ∷ s.toasts
  unfolding handle_submit toast
  refused_submit server s e = rw (e, handle_submit) refl

  failed_submit :
      (server : Registration → Answer) (s : Signup browser) {e : Thrown}
      → refusal (normalized s.form) ≡ none
      → generate_client_key_pair browser env generated ≡ throw e
      → Signup.toasts (handle_submit crypto maker server s).0 ≡ failure_toast e ∷ s.toasts
  unfolding handle_submit register blocked toast set_stage
  failed_submit server s valid e = rw (valid, handle_submit) (rw (e, register) refl)

  submitted :
      (server : Registration → Answer) (s : Signup browser) (pair : ClientKeyPair browser)
      → refusal (normalized s.form) ≡ none
      → generate_client_key_pair browser env generated ≡ ok pair
      → let sent : Registration = registration_of crypto maker (normalized s.form) pair in
        handle_submit crypto maker server s ≡ (
          answered crypto maker (normalized s.form) pair.private_key (server sent) (started s),
          some sent,
        )
  unfolding handle_submit register set_stage started
  submitted server s pair valid e = rw (valid, handle_submit) (rw (e, register) refl)

  -- Where the page announces success, the registration went through.
  pub handle_submit-Registered :
      (server : Registration → Answer) (s : Signup browser)
      → Announces (Signup.toasts (handle_submit crypto maker server s).0)
      → Registered server s
  unfolding started
  handle_submit-Registered server s (text, before, h) =
      elim (Option-cases (refusal (normalized s.form))) [
        | inr (message, refused) ↦
            absurd (problem-ne-good (sym (refused_submit server s refused) ∙ h))
        | inl valid ↦ elim (Result-cases (generate_client_key_pair browser env generated)) [
          | inr (e, failed) ↦
              absurd (
                failure_toast-ne-good e {text = text} (cc (failed_submit server s valid failed, h)))
          | inl (pair, made) ↦
              let run = submitted server s pair valid made in
              let (enrollment, answer, a) =
                answered-Answered (normalized s.form) pair.private_key _ (started s)
                  (text, before, sym (ap (λ r. Signup.toasts r.0) run) ∙ h) in
              record {
                pair = pair;
                enrollment = enrollment;
                credentials = a.credentials;
                made = made;
                valid = valid;
                sent = ap (λ r. r.1) run;
                answer = answer;
                shown = ap (λ r. Signup.credential_summary r.0) run ∙ a.shown;
                accepted =
                    same_device (normalized s.form) pair.private_key enrollment a.credentials
                      (started s) s _ _ refl (ap (λ r. Signup.device r.0) (sym run)) a.accepted;
              }
        ]
      ]
    where
      problem-ne-good : {m : Text} → problem m ∷ s.toasts ≡ good text ∷ before → ⊥
      problem-ne-good e = cc
