-- ===== src/Login/Form.antt =====
-- frontend/src/components/auth/Login.jsx: the form of the login by certificate. A handler that waits is one
-- function, and the stages that it only shows for a time are left out.
use hybrid_quantum_cryptogra.Prelude.{
  Bool, true, false, not, Option, none, some, List, [], ◌∷◌, if◌then◌else◌,
}
use hybrid_quantum_cryptogra.Js.{
  Text, lit, text_eq, trim, is_empty, Thrown, type_error, error, Result, ok, throw,
}
use hybrid_quantum_cryptogra.Roles.{User, user_role}
use hybrid_quantum_cryptogra.Keystore.Platform.{Browser}
use hybrid_quantum_cryptogra.Login.Parts.{Upload, Server, Crypto, Device}
use hybrid_quantum_cryptogra.Login.Certificate.{login_with_certificate}

pub data Stage : Type 0 where
  form processing success : Stage

-- An error message: a text, or the one that the engine gives its own errors.
pub data Toast : Type 0 where
  saying : Text → Toast
  engine_message : Toast

-- `toasts` are the error messages, the latest first.
pub record Form : Type 0 where
  pub certificate_file : Option Upload
  pub private_key_file : Option Upload
  pub manual_device_secret : Text
  pub show_recovery_fields : Bool
  pub loading : Bool
  pub login_stage : Stage
  pub status_message : Text
  pub redirect_path : Text
  pub toasts : List Toast

unfoldable pub initial_form : Form
initial_form = record {
  certificate_file = none;
  private_key_file = none;
  manual_device_secret = [];
  show_recovery_fields = false;
  loading = false;
  login_stage = form;
  status_message = [];
  redirect_path = [];
  toasts = [];
}

unfoldable pub handle_certificate_change : Option Upload → Form → Form
handle_certificate_change file f = record f { certificate_file = file }

unfoldable pub handle_private_key_change : Option Upload → Form → Form
handle_private_key_change file f = record f { private_key_file = file }

unfoldable pub toggle_recovery_fields : Form → Form
toggle_recovery_fields f = record f { show_recovery_fields = not f.show_recovery_fields }

toast_error : Toast → Form → Form
toast_error message f = record f { toasts = message ∷ f.toasts }

-- Where a role is sent to, if it is known.
unfoldable pub target_path : Text → Option Text
target_path role =
    if text_eq role (lit "customer")
    then some (lit "/dashboard")
    else if text_eq role (lit "auditor_clerk")
    then some (lit "/dashboard")
    else if text_eq role (lit "manager")
    then some (lit "/manager/dashboard")
    else if text_eq role (lit "system_admin")
    then some (lit "/admin/dashboard")
    else none

-- `err.message || fallback`
login_message : Thrown → Toast
login_message type_error = engine_message
login_message (error message) =
    if is_empty message
    then saying (lit "Login failed. Please check your certificate and try again.")
    else saying message

unfoldable pub login_failed : Thrown → Form → Form
unfolding login_message toast_error
login_failed e f = toast_error (login_message e) (record f { login_stage = form; loading = false })

unfoldable pub login_succeeded : (target : Text) → Form → Form
login_succeeded target f = record f {
  redirect_path = target;
  login_stage = success;
  status_message = lit "Authentication successful";
  private_key_file = none;
  manual_device_secret = [];
  show_recovery_fields = false;
}

module _ {browser : Browser} where
  redirect : Text → Device browser → Device browser
  redirect target d = record d { client = record d.client { location = some target } }

  unfoldable pub by_target : Option Text → Form → Device browser → Form × Device browser
  unfolding toast_error redirect login_succeeded
  by_target none f d = (
    record (toast_error (saying (lit "Unknown user role. Please contact support.")) f) {
      loading = false;
    },
    d,
  )
  by_target (some target) f d = (login_succeeded target f, redirect target d)

  unfoldable pub by_role : Option Text → Form → Device browser → Form × Device browser
  unfolding by_target login_failed
  by_role none f d = (login_failed (error (lit "Certificate missing role information")) f, d)
  by_role (some role) f d = by_target (target_path role) f d

  -- What follows the login, by its result.
  unfoldable pub after_login : Result (Option User) → Form → Device browser → Form × Device browser
  unfolding login_failed
  after_login (throw e) f d = (login_failed e f, d)
  after_login (ok user) f d = by_role (user_role user) f d

  unfoldable pub handle_login :
      Crypto browser → Server → Form → Device browser → Form × Device browser
  unfolding toast_error
  handle_login crypto server f d = elim (f.certificate_file) [
    | none ↦
        (toast_error (saying (lit "Please upload your certificate file (.pem) to login.")) f, d)
    | some file ↦
        let (result, d') =
          login_with_certificate crypto server (some file) f.private_key_file
            (trim f.manual_device_secret) d in
        after_login result (record f { loading = true }) d'
  ]
