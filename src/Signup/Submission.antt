-- ===== src/Signup/Submission.antt =====
-- frontend/src/components/auth/CustomerSignup.jsx: `handleSubmit`.

use hybrid_quantum_cryptogra.Prelude.{ℕ, true, false, Option, none, some, if◌then◌else◌, String}
use hybrid_quantum_cryptogra.Js.{
  Text, lit, trim, is_empty, or_empty, Thrown, error, Result, ok, throw,
}
use hybrid_quantum_cryptogra.Roles.{truthy}
use hybrid_quantum_cryptogra.Actions.{Action, ◌>>=◌, ◌>>◌, returns, lift}
use hybrid_quantum_cryptogra.Session.{refused, intercept}
use hybrid_quantum_cryptogra.Keystore.Platform.{Bytes, Browser}
use hybrid_quantum_cryptogra.Keystore.{enroll_platform_key}
use hybrid_quantum_cryptogra.Keystore.Generation.{KeyPair, ClientKeyPair, generate_client_key_pair}
use hybrid_quantum_cryptogra.Login.Parts.{Crypto, Device}
use hybrid_quantum_cryptogra.Login.Certificate.{reworded}
use hybrid_quantum_cryptogra.Signup.{
  Form, Stage, Credentials, Signup, initial_form, normalized, refusal, Toast, good, problem,
  engine_message, toast, failure_toast, refused_toast, set_stage, download_certificate_file,
}
use hybrid_quantum_cryptogra.Signup.Delivery.{Delivery, decrypt_delivery_bundle}

-- What a registration sends.
pub record Registration : Type 0 where
  pub full_name : Text
  pub email : Text
  pub password : Text
  pub rsa_spki : Text

-- What the server issues.
pub record Enrollment : Type 0 where
  pub delivery : Option Delivery
  pub certificate_id : Option Text
  pub kyber_crystal : Option Text
  pub device_secret : Option Text

-- An answer that refuses has a status and, perhaps, a message.
pub data Answer : Type 0 where
  issued : Enrollment → Answer
  declined : (status : ℕ) → (message : Option Text) → Answer
  lost : Answer

-- What a registration needs of the browser beside what a login needs.
pub record Maker (browser : Browser) : Type 0 where
  pub generated : Result (KeyPair browser)
  pub import_aes : Bytes → Result (Browser.Key browser)
  pub decryption_error : Thrown

module _ {browser : Browser} (crypto : Crypto browser) (maker : Maker browser) where
  open crypto use {env, fresh, iv, now}
  open maker use {generated, import_aes, decryption_error}

  unfoldable pub enter : Stage → Action (Signup browser) (Unit {0})
  unfolding set_stage
  enter stage s = (ok tt, set_stage stage s)

  unfoldable pub downloading : Text → Option Text → Action (Signup browser) (Unit {0})
  downloading text id s = elim (download_certificate_file text id s) [
    | throw e ↦ (throw e, s)
    | ok s' ↦ (ok tt, s')
  ]

  -- A blank text counts as missing.
  unfoldable pub given : Option Text → String → Result Text
  given text message =
      if is_empty (trim (or_empty text))
      then throw (error (lit message))
      else ok (trim (or_empty text))

  -- A change of the keystore.
  unfoldable pub enrolling :
      Option Text
      → Browser.Key browser
      → (device_secret : Text) → Action (Signup browser) (Unit {0})
  enrolling id private_key device_secret s =
      elim (enroll_platform_key browser env fresh iv (or_empty id) (some private_key)
        (some device_secret) now (Device.records s.device)) [
          | throw e ↦ (
            throw (
                reworded crypto.engine_message e
                  "Secure keystore unavailable. Use a hardened browser or device."),
            s,
          )
          | ok records ↦ (ok tt, record s { device = record (s.device) { records = records } })
        ]

  -- From the opened certificate to its download.
  unfoldable pub finish :
      Form
      → (private_key : Browser.Key browser) → (certificate_id : Option Text)
      → (certificate_text device_secret : Text) → Action (Signup browser) Credentials
  unfolding enter downloading enrolling
  finish form private_key certificate_id certificate_text device_secret = do
    enter Stage.enrolling_key
    enrolling certificate_id private_key device_secret
    enter Stage.vaulting
    downloading certificate_text certificate_id
    returns (record {
      certificate_text = certificate_text;
      certificate_id = certificate_id;
      full_name = form.full_name;
    })

  -- From the two secrets that the server issues.
  unfoldable pub open_bundle :
      Form
      → (private_key : Browser.Key browser) → Enrollment
      → (kyber_crystal device_secret : Text) → Action (Signup browser) Credentials
  unfolding enter
  open_bundle form private_key enrollment kyber_crystal device_secret =
      enter Stage.decrypting_bundle
      >> (lift (
            decrypt_delivery_bundle crypto import_aes decryption_error enrollment.delivery
              kyber_crystal form.password enrollment.certificate_id)
          >>= λ text. finish form private_key enrollment.certificate_id text device_secret)

  -- From the server's answer to the download of the certificate.
  unfoldable pub accept :
      Form → (private_key : Browser.Key browser) → Enrollment → Action (Signup browser) Credentials
  accept form private_key enrollment = do
    kyber_crystal ←
        lift (given enrollment.kyber_crystal "Bank CA did not return a Kyber Crystal secret.")
    device_secret ← lift (
        given enrollment.device_secret
          "Device secret missing from enrollment. Contact system administrator.")
    open_bundle form private_key enrollment kyber_crystal device_secret

  unfoldable pub blocked : Toast → Signup browser → Signup browser
  unfolding toast set_stage
  blocked message s = record (toast message (set_stage Stage.blocked s)) { loading = false }

  -- What an attempt has come to.
  unfoldable pub settle : Result Credentials × Signup browser → Signup browser
  unfolding blocked
  settle (throw e, s) = blocked (failure_toast e) s
  settle (ok credentials, s) =
      record (toast (good (lit "Registration successful — certificate downloaded.")) s) {
        credential_summary = some credentials;
        form = initial_form;
        loading = false;
      }

  unfoldable pub registration_of : Form → ClientKeyPair browser → Registration
  registration_of form pair = record {
    full_name = form.full_name;
    email = form.email;
    password = form.password;
    rsa_spki = pair.public_key_spki_b64;
  }

  unfoldable pub refused_with : Option Text → Toast
  refused_with message = elim (truthy message) [
    | none ↦ engine_message
    | some text ↦ refused_toast text
  ]

  unfoldable pub answered :
      Form → (private_key : Browser.Key browser) → Answer → Signup browser → Signup browser
  unfolding refused_with blocked
  answered form private_key (issued enrollment) s = settle (accept form private_key enrollment s)
  answered form private_key (declined status message) s = blocked (refused_with message) (record s {
    device = record (s.device) {
      client = intercept {A = Unit {0}} (refused status) (Device.client s.device);
    };
  })
  answered form private_key lost s = blocked engine_message s

  -- The request that is sent, if any, and the form after the answer.
  unfoldable pub register :
      Form
      → (server : Registration → Answer) → Signup browser
      → Signup browser × Option Registration
  unfolding set_stage registration_of blocked
  register form server s = elim (generate_client_key_pair browser env generated) [
    | throw e ↦ (blocked (failure_toast e) s, none)
    | ok pair ↦
        let sent = registration_of form pair in
        (
          answered form pair.private_key (server sent) (set_stage Stage.sending_request s),
          some sent,
        )
  ]

  unfoldable pub handle_submit :
      (server : Registration → Answer) → Signup browser → Signup browser × Option Registration
  unfolding set_stage toast
  handle_submit server s =
      let started = record s { credential_summary = none; signup_stage = Stage.generating_key } in
      elim (refusal (normalized s.form)) [
        | some message ↦ (toast (problem message) started, none)
        | none ↦ register (normalized s.form) server (record started { loading = true })
      ]
