-- ===== src/Tests/Signup.antt =====
-- CustomerSignup.jsx at concrete inputs, over the browser of the tests of platformKeystore.js.
use hybrid_quantum_cryptogra.Prelude.{
  ◌≡◌, refl, true, false, none, some, [], ◌∷◌, arith, length, filter_by,
}
use hybrid_quantum_cryptogra.Js.{lit, type_error, ok, trim, is_empty, or_empty}
use hybrid_quantum_cryptogra.Actions.{◌>>=◌, lift, returns}
use hybrid_quantum_cryptogra.Certificates.{parse_certificate_text, certificate_id_of}
use hybrid_quantum_cryptogra.Keystore.Platform.{Bytes, IsBytes}
use hybrid_quantum_cryptogra.Keystore.Generation.{ClientKeyPair, generate_client_key_pair}
use hybrid_quantum_cryptogra.Login.Parts.{
  Upload, Crypto, Device, buffer_to_hex, nonce_bytes, is_supported,
}
use hybrid_quantum_cryptogra.Login.Certificate.{bound_device_id, certificate_proof}
use hybrid_quantum_cryptogra.Login.Resumption.{answer_with}
use hybrid_quantum_cryptogra.Signup.{
  Stage, Credentials, Signup, normalized, refusal, problem, toast, set_stage,
  download_certificate_file, sanitize_certificate_id, is_name_unit,
}
use hybrid_quantum_cryptogra.Signup.Delivery.{
  decrypt_delivery_bundle, base64_to_bytes, derive_delivery_key, hex_to_bytes, hex_pairs, is_hex,
  hex_value,
}
use hybrid_quantum_cryptogra.Signup.Sealing.{sealed, decrypt_delivery_bundle-sealed}
use hybrid_quantum_cryptogra.Signup.Submission.{
  Registration, Enrollment, Answer, issued, Maker, registration_of, handle_submit, register,
  answered, settle, accept, given, open_bundle, finish,
}
use hybrid_quantum_cryptogra.Signup.Enrolled.{Registered, Announces, handle_submit-Registered}
use hybrid_quantum_cryptogra.Signup.Returning.{handle_submit-certificate_proof}
use hybrid_quantum_cryptogra.Tests.Keys.{browser, iv-ne-nil, keys}
use hybrid_quantum_cryptogra.Tests.Login.{client, challenge, server, contents, login}
use hybrid_quantum_cryptogra.Tests.Login

abbrev crypto : Crypto browser
crypto = record Login.crypto { sha3_256 = buffer_to_hex }

abbrev maker : Maker browser
maker = record {
  generated = ok (record { private_key = 8; spki = lit "spki" });
  import_aes = λ bytes. ok (length bytes);
  decryption_error = type_error;
}

abbrev enrollment : Enrollment
enrollment = record {
  delivery = some (record { ciphertext = some (14 ∷ contents); nonce = some (lit "n") });
  certificate_id = some (lit "C-1");
  kyber_crystal = some (lit " KC");
  device_secret = some (lit "pin ");
}

abbrev filled : Signup browser
filled = record {
  form = record { full_name = lit "Ann "; email = lit "a@b.c"; password = lit "password1" };
  loading = false;
  credential_summary = none;
  signup_stage = Stage.idle;
  toasts = [];
  downloads = [];
  device = record { client = client; records = [] };
}

abbrev ask : Registration → Answer
ask sent = issued enrollment

signup : Unit {0}
unfolding login keys generate_client_key_pair decrypt_delivery_bundle base64_to_bytes
    derive_delivery_key hex_to_bytes hex_pairs is_hex hex_value filter_by buffer_to_hex normalized
    refusal toast set_stage download_certificate_file sanitize_certificate_id is_name_unit
    registration_of handle_submit register answered settle accept given open_bundle finish ◌>>=◌
    lift returns or_empty
signup = tt

announced : Announces (Signup.toasts (handle_submit crypto maker ask filled).0)
unfolding signup
announced = (lit "Registration successful — certificate downloaded.", [], refl)

handle_submit-Registered_example : Registered crypto maker ask filled
handle_submit-Registered_example = handle_submit-Registered crypto maker ask filled announced

abbrev pair : ClientKeyPair browser
pair = record { private_key = 8; public_key_spki_b64 = lit "spki" }

abbrev credentials : Credentials
credentials = record {
  certificate_text = contents;
  certificate_id = some (lit "C-1");
  full_name = lit "Ann";
}

abbrev registered : Registered crypto maker ask filled
unfolding signup
registered = record {
  pair = pair;
  enrollment = enrollment;
  credentials = credentials;
  made = refl;
  valid = refl;
  sent = refl;
  answer = refl;
  shown = refl;
  accepted = record {
    kyber_crystal = lit "KC";
    secret_given = refl;
    opened = refl;
    finished = record { named = refl; text_of = refl; enrolled = refl };
  };
}

abbrev downloaded : Upload
downloaded = record { name = lit "certificate_C-1.pem"; contents = ok contents }

id_named :
    certificate_id_of (parse_certificate_text contents) (lit "certificate_C-1.pem") ≡ lit "C-1"
unfolding signup
id_named = refl

pin_trimmed : trim (lit "pin ") ≡ lit "pin"
unfolding signup
pin_trimmed = refl

bound_given :
    is_empty (bound_device_id crypto server (parse_certificate_text contents) (trim (lit "pin ")))
    ≡ false
unfolding signup
bound_given = refl

mode_supported : is_supported challenge ≡ true
unfolding signup
mode_supported = refl

nonce_read : nonce_bytes crypto challenge ≡ ok (lit "nonce")
unfolding signup
nonce_read = refl

abbrev after : Device browser
after = Signup.device (handle_submit crypto maker ask filled).0

handle_submit-certificate_proof_example :
    certificate_proof crypto server downloaded none [] after ≡ (
      ok (
          answer_with crypto server
            (parse_certificate_text contents)
            8
            (trim (lit "pin "))
            challenge
            (lit "nonce")),
      after,
    )
unfolding signup
handle_submit-certificate_proof_example =
    handle_submit-certificate_proof crypto maker server ask filled registered downloaded challenge
      (lit "nonce") refl id_named refl (omega arith) iv-ne-nil bound_given refl mode_supported
      nonce_read

abbrev short : Signup browser
short = record filled { form = record (filled.form) { password = lit " short " } }

too_short :
    Signup.toasts (handle_submit crypto maker ask short).0
    ≡ problem (lit "Password must be at least 8 characters long.") ∷ []
unfolding signup
too_short = refl

digest : Bytes
digest = lit "KCpassword1C-1"

digest-IsBytes : IsBytes digest
unfolding digest lit
digest-IsBytes = omega arith

decrypt_delivery_bundle-sealed_example :
    decrypt_delivery_bundle crypto
      (λ bytes. ok 14)
      type_error
      (some (sealed crypto 14 (lit "n") (lit "text")))
      (lit "KC")
      (lit "password1")
      (some (lit "C-1"))
    ≡ ok (lit "text")
unfolding lit digest is_empty
decrypt_delivery_bundle-sealed_example =
    decrypt_delivery_bundle-sealed crypto (λ bytes. ok 14) type_error 14 (lit "KC") digest (lit "n")
      (lit "password1") (lit "C-1") (lit "text") refl (omega arith) (λ e. cc) refl refl
      digest-IsBytes refl refl (omega arith) (λ e. cc) refl
