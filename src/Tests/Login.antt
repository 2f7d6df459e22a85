-- ===== src/Tests/Login.antt =====
-- The logins of AuthContext.jsx at concrete inputs, over the browser of the tests of platformKeystore.js.
use hybrid_quantum_cryptogra.Prelude.{◌≡◌, refl, true, false, none, some, [], ◌∷◌, arith, length}
use hybrid_quantum_cryptogra.Js.{
  Text, text_eq, lit, type_error, error, ok, throw, trim, is_empty, to_lower_case, crlf, lines,
  split_on, has_unit, join, or_empty,
}
use hybrid_quantum_cryptogra.Roles.{User, user_role, truthy}
use hybrid_quantum_cryptogra.Session.{
  Client, Login, answered, refused, initial_auth, result_of, complete_login,
}
use hybrid_quantum_cryptogra.Certificates.{
  Fields, parse_certificate_text, certificate_id_of, device_id_of,
}
use hybrid_quantum_cryptogra.Certificates.Reading.{
  parse_certificate_text-written, IsField, written, value_after,
}
use hybrid_quantum_cryptogra.Keystore.Platform.{get, put}
use hybrid_quantum_cryptogra.Keystore.{
  enroll_platform_key, get_stored_device_secret, ensure_platform_key,
}
use hybrid_quantum_cryptogra.Keystore.Signing.{sign_with_platform_key}
use hybrid_quantum_cryptogra.Actions.{◌>>=◌, lift, demand, reads, returns, catches}
use hybrid_quantum_cryptogra.Login.Parts.{
  Upload, Challenge, Proof, Server, Crypto, Device, is_supported, nonce_bytes, challenge_message,
  device_proof_of, derive_device_id_legacy, buffer_to_hex, require_stored_device_secret,
}
use hybrid_quantum_cryptogra.Login.Certificate.{
  login_with_certificate, bound_device_id, certificate_proof,
}
use hybrid_quantum_cryptogra.Login.Attempts.{Attempt, by_certificate, by_qr_code, log_in, verdict}
use hybrid_quantum_cryptogra.Login.Effects.{SameSession, log_in-throw}
use hybrid_quantum_cryptogra.Login.Proofs.{Answers, log_in-Answers}
use hybrid_quantum_cryptogra.Login.Resumption.{answer_with, enroll_platform_key-certificate_proof}
use hybrid_quantum_cryptogra.Login.Form.{
  Form, form, initial_form, handle_login, after_login, by_role, by_target, target_path,
}
use hybrid_quantum_cryptogra.Login.Landing.{Landed, handle_login-Landed}
use hybrid_quantum_cryptogra.Tests.Keys.{
  browser, env, iv, first_records, enrolled, pin_kept, iv-ne-nil, keys,
}

abbrev pub crypto : Crypto browser
crypto = record {
  env = env;
  sha256 = λ bytes. bytes;
  sha3_256 = λ bytes. bytes;
  sign = λ key message. key ∷ message;
  import_key = λ bytes. ok (length bytes);
  fresh = 5;
  iv = iv;
  now = 20;
  encoding_error = type_error;
  engine_message = lit "Illegal invocation";
}

abbrev pub challenge : Challenge
challenge = record {
  challenge_token = lit "token";
  nonce = lit "nonce";
  binding_mode = none;
  device_id = some (lit "D-1");
}

abbrev ann : User
ann = record { username = lit "ann"; role = some (lit "manager") }

abbrev session : Login
session = record { token = some (lit "jwt"); user = some ann }

abbrev pub server : Server
server = record {
  certificate_challenge = λ id device_id. answered challenge;
  qr_challenge = λ id hash. refused 401;
  certificate_login = λ proof. answered session;
  qr_login = λ proof. refused 401;
  verify_session = refused 500;
}

abbrev pub client : Client
client = record { auth = initial_auth; pq_token = none; pq_user = none; location = none }

abbrev device : Device browser
device = record { client = client; records = first_records }

abbrev pub fields : Fields
fields = (lit "certificate_id", lit "C-1") ∷ (lit "device_id", lit "D-1") ∷ []

abbrev pub contents : Text
contents = written crlf fields

abbrev pub file : Upload
file = record { name = lit "ann.pem"; contents = ok contents }

unfoldable pub login : Unit {0}
unfolding keys parse_certificate_text certificate_id_of device_id_of lines split_on has_unit join
    or_empty to_lower_case put bound_device_id is_supported nonce_bytes device_proof_of
    challenge_message buffer_to_hex derive_device_id_legacy log_in certificate_proof ◌>>=◌ lift
    demand reads returns catches require_stored_device_secret get_stored_device_secret
    ensure_platform_key sign_with_platform_key result_of complete_login
login = tt

id_read : certificate_id_of (parse_certificate_text contents) (lit "ann.pem") ≡ lit "C-1"
unfolding login
id_read = refl

bound : bound_device_id crypto server (parse_certificate_text contents) (lit "pin") ≡ lit "D-1"
unfolding login
bound = refl

first-IsField : IsField (lit "certificate_id", lit "C-1")
unfolding login
first-IsField = record {
  named = refl;
  undivided = omega arith;
  name_line = omega arith;
  value_line = omega arith;
  name_trimmed = refl;
  value_trimmed = refl;
}

second-IsField : IsField (lit "device_id", lit "D-1")
unfolding login
second-IsField = record {
  named = refl;
  undivided = omega arith;
  name_line = omega arith;
  value_line = omega arith;
  name_trimmed = refl;
  value_trimmed = refl;
}

id_proper : text_eq (lit "certificate_id") (lit "__proto__") ≡ false
unfolding text_eq lit
id_proper = refl

parse_certificate_text-written_example :
    get (lit "certificate_id") (parse_certificate_text (written crlf fields))
    ≡ value_after (lit "certificate_id") fields none
parse_certificate_text-written_example =
    parse_certificate_text-written crlf fields (lit "certificate_id")
      (first-IsField, (second-IsField, tt)) id_proper

enrolled_file :
    enroll_platform_key browser env 5 iv
      (certificate_id_of (parse_certificate_text contents) (lit "ann.pem"))
      (some 8)
      (some (lit "pin "))
      20
      []
    ≡ ok first_records
enrolled_file = rw id_read enrolled

secret_kept : is_empty (trim (lit "pin ")) ≡ false
unfolding login
secret_kept = refl

bound_given :
    is_empty (bound_device_id crypto server (parse_certificate_text contents) (trim (lit "pin ")))
    ≡ false
unfolding login
bound_given = refl

mode_supported : is_supported challenge ≡ true
unfolding login
mode_supported = refl

nonce_read : nonce_bytes crypto challenge ≡ ok (lit "nonce")
unfolding login
nonce_read = refl

enroll_platform_key-certificate_proof_example :
    certificate_proof crypto server file none [] device ≡ (
      ok (
          answer_with crypto server
            (parse_certificate_text contents)
            8
            (trim (lit "pin "))
            challenge
            (lit "nonce")),
      device,
    )
enroll_platform_key-certificate_proof_example =
    enroll_platform_key-certificate_proof crypto server file 8 (lit "pin ") contents challenge
      (lit "nonce") device [] refl enrolled_file secret_kept pin_kept (omega arith) iv-ne-nil
      bound_given refl mode_supported nonce_read

abbrev card : Attempt
card = by_qr_code (lit "C-1") (lit "hash") none

card_refused : (log_in crypto server card device).0 ≡ throw (error (lit "Request failed"))
unfolding login
card_refused = refl

log_in-throw_example : SameSession device (log_in crypto server card device).1
log_in-throw_example = log_in-throw crypto server card device _ card_refused

admitted : (log_in crypto server (by_certificate (some file) none []) device).0 ≡ ok (some ann)
unfolding login
admitted = refl

log_in-Answers_example :
    (proof : Proof) × Answers crypto server
      (by_certificate (some file) none [])
      device.records
      (Device.records (log_in crypto server (by_certificate (some file) none []) device).1)
      proof
    × ((session : Login) × (verdict server (by_certificate (some file) none []) proof
          ≡ answered session)
        × (some ann ≡ session.user))
log_in-Answers_example =
    log_in-Answers crypto server (by_certificate (some file) none []) device (some ann) admitted

abbrev entered : Form
entered = record initial_form { certificate_file = some file }

form_shown : entered.login_stage ≡ form
unfolding initial_form
form_shown = refl

handle_login-Landed_example :
    Landed
      (login_with_certificate crypto server
        (some file)
        entered.private_key_file
        (trim entered.manual_device_secret)
        device).0
      (login_with_certificate crypto server
        (some file)
        entered.private_key_file
        (trim entered.manual_device_secret)
        device).1
      (handle_login crypto server entered device)
handle_login-Landed_example = handle_login-Landed crypto server entered device file form_shown refl

sent_to_dashboard :
    (handle_login crypto server entered device).1.client.location ≡ some (lit "/manager/dashboard")
unfolding login initial_form handle_login after_login by_role by_target target_path user_role truthy
sent_to_dashboard = refl
