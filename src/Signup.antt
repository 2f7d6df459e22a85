-- ===== src/Signup.antt =====
-- frontend/src/components/auth/CustomerSignup.jsx: the registration of a customer. The state is that of
-- the form, the session and the keystore; a submission is one call, and what is typed while it waits is
-- left out.
pub mod Delivery
pub mod Hex
pub mod Sealing
pub mod Submission
pub mod Enrolled
pub mod Returning
use mathlib.Core.Option
use hybrid_quantum_cryptogra.Prelude.{
  ℕ, leb, Bool, true, false, ◌&&◌, ◌||◌, ◌==◌, Option, none, some, List, [], ◌∷◌, ◌++◌, map,
  if◌then◌else◌, ltb, length,
}
use hybrid_quantum_cryptogra.Js.{
  Text, lit, trim, is_empty, contains, to_lower_case, Thrown, error, type_error, Result, ok, throw,
}
use hybrid_quantum_cryptogra.Roles.{truthy}
use hybrid_quantum_cryptogra.Keystore.Platform.{Browser}
use hybrid_quantum_cryptogra.Login.Parts.{Device}

pub record Form : Type 0 where
  pub full_name : Text
  pub email : Text
  pub password : Text

pub data Stage : Type 0 where
  idle generating_key sending_request decrypting_bundle enrolling_key vaulting blocked : Stage

pub record Credentials : Type 0 where
  pub certificate_text : Text
  pub certificate_id : Option Text
  pub full_name : Text

-- A text, or the message that the engine or axios gives its own errors.
pub data Toast : Type 0 where
  good problem : Text → Toast
  engine_message : Toast

pub record Download : Type 0 where
  pub name : Text
  pub contents : Text

-- `downloads` and `toasts` have the latest first.
pub record Signup (browser : Browser) : Type 0 where
  pub form : Form
  pub loading : Bool
  pub credential_summary : Option Credentials
  pub signup_stage : Stage
  pub toasts : List Toast
  pub downloads : List Download
  pub device : Device browser

abbrev pub initial_form : Form
initial_form = record { full_name = []; email = []; password = [] }

-- `/[a-z0-9_-]/i`
unfoldable pub is_name_unit : ℕ → Bool
is_name_unit c =
    (leb b'a' c && leb c b'z')
    || (leb b'A' c && leb c b'Z')
    || (leb b'0' c && leb c b'9')
    || c == b'_'
    || c == b'-'

unfoldable pub sanitize_certificate_id : Option Text → Text
unfolding truthy is_name_unit
sanitize_certificate_id value =
    map (λ c. if is_name_unit c then c else b'-') (Option.get_or (truthy value) (lit "customer"))

-- What the form's fields come to when they are sent.
unfoldable pub normalized : Form → Form
normalized form = record {
  full_name = trim form.full_name;
  email = trim form.email;
  password = trim form.password;
}

-- The message that keeps a form from being sent, if any.
unfoldable pub refusal : Form → Option Text
refusal form =
    if is_empty form.full_name || is_empty form.email || is_empty form.password
    then some (lit "Please fill in all fields to register.")
    else if ltb (length form.password) 8
    then some (lit "Password must be at least 8 characters long.")
    else none

-- `err.message || "Signup failed. Please check your details and try again."`
unfoldable pub failure_toast : Thrown → Toast
failure_toast type_error = engine_message
failure_toast (error message) =
    if is_empty message
    then problem (lit "Signup failed. Please check your details and try again.")
    else problem message

-- The message of an answer that refuses a registration.
unfoldable pub refused_toast : (message : Text) → Toast
refused_toast message =
    if contains (lit "email already registered") (to_lower_case message)
    then problem
        (lit "This email is already registered. Please use a different email or try logging in.")
    else problem message

module _ {browser : Browser} where
  unfoldable pub set_stage : Stage → Signup browser → Signup browser
  set_stage stage s = record s { signup_stage = stage }

  unfoldable pub toast : Toast → Signup browser → Signup browser
  toast message s = record s { toasts = message ∷ s.toasts }

  -- In every stage but the idle one the stage is set to idle, which is it afterwards.
  unfoldable pub handle_change : (Form → Form) → Signup browser → Signup browser
  handle_change change s = record s { form = change s.form; signup_stage = idle }

  unfoldable pub download_certificate_file :
      (certificate_text : Text)
      → (certificate_id : Option Text) → Signup browser
      → Result (Signup browser)
  download_certificate_file certificate_text certificate_id s =
      if is_empty certificate_text
      then throw (error (lit "Certificate payload is unavailable for download"))
      else ok (record s {
        downloads =
            record {
              name = lit "certificate_" ++ (sanitize_certificate_id certificate_id ++ lit ".pem");
              contents = certificate_text;
            }
            ∷ s.downloads;
      })

  unfoldable pub handle_download_certificate_again : Signup browser → Result (Signup browser)
  handle_download_certificate_again s = elim s.credential_summary [
    | none ↦ ok s
    | some c ↦ download_certificate_file c.certificate_text c.certificate_id s
  ]
