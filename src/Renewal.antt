-- ===== src/Renewal.antt =====
-- frontend/src/pages/customer/CertificateRequest/CertificateRequest.jsx: a customer asks for a certificate,
-- and issues an approved one. A handler that waits is two functions, one up to the request and one from
-- the answer on.
pub mod Lines
pub mod Storing
pub mod Files
use mathlib.Core.Option
use hybrid_quantum_cryptogra.Prelude.{
  ltb, length, Bool, true, false, not, ◌||◌, Option, none, some, List, [], ◌∷◌, ◌++◌, if◌then◌else◌,
}
use hybrid_quantum_cryptogra.Js.{
  Text, lit, trim, is_empty, or_empty, contains, Thrown, error, type_error, Result, ok, throw,
}
use hybrid_quantum_cryptogra.Answers.{Answer, answered, failed, message_or}
use hybrid_quantum_cryptogra.Keystore.Platform.{Bytes, Browser}
use hybrid_quantum_cryptogra.Roles.{truthy}

pub record FormData : Type 0 where
  pub request_type : Text
  pub reason : Text

-- A request of the history. `user_id` is the text of a number.
pub record PastRequest : Type 0 where
  pub user_id : Text
  pub request_type : Text
  pub status : Text
  pub reason : Text
  pub admin_notes : Option Text

-- What the server says of the customer's certificate.
pub record CertificateState (Info : Type 0) : Type 0 where
  pub has_certificate : Bool
  pub certificate : Option Info

pub record Page (Info : Type 0) : Type 0 where
  pub loading : Bool
  pub submitting : Bool
  pub enrolling : Bool
  pub error : Text
  pub success : Text
  pub certificate_info : Option Info
  pub has_certificate : Bool
  pub requests : List PastRequest
  pub show_request_form : Bool
  pub form_data : FormData

-- What awaits a load of the page's data.
pub data Purpose : Type 0 where
  arrival submission renewal : Purpose

pub data Request : Type 0 where
  my_certificate my_requests : Purpose → Request
  creating : FormData → Request
  renewing : (user_id rsa_spki ml_kem_public_key : Text) → Request

-- What the server issues.
pub record Issued : Type 0 where
  pub device_secret : Text
  pub certificate_pem : Text

-- The new keys, as the browser exports them: the public one before the request, the private one after it.
pub record Pair : Type 0 where
  pub spki : Bytes
  pub pkcs8 : Result Bytes
  pub kyber : Bytes

unfoldable pub empty_form : FormData
empty_form = record { request_type = lit "RENEWAL"; reason = [] }

unfoldable pub is_used : PastRequest → Bool
is_used request =
    contains (lit "Certificate issued on re-enrollment") (or_empty request.admin_notes)

-- `err.message || fallback`, with what the engine says of its own errors.
unfoldable pub renewal_failure : (engine_message : Text) → Thrown → Text
renewal_failure engine_message (error message) =
    if is_empty message then lit "Failed to re-enroll certificate" else message
renewal_failure engine_message type_error =
    if is_empty engine_message then lit "Failed to re-enroll certificate" else engine_message

module _ {Info : Type 0} where
  unfoldable pub initial_page : Page Info
  unfolding empty_form
  initial_page = record {
    loading = true;
    submitting = false;
    enrolling = false;
    error = [];
    success = [];
    certificate_info = none;
    has_certificate = false;
    requests = [];
    show_request_form = false;
    form_data = empty_form;
  }

  unfoldable pub load_data : Purpose → Page Info → Page Info × List Request
  load_data purpose p = (record p { loading = true; error = [] }, my_certificate purpose ∷ [])

  -- What the handler that waited for the load does next; a renewal only sets its timer.
  resumed : Purpose → Page Info → Page Info
  resumed arrival p = p
  resumed submission p = record p { submitting = false }
  resumed renewal p = p

  load_failed : Purpose → Option Text → Page Info → Page Info
  unfolding resumed
  load_failed purpose message p =
      resumed purpose
        (record p { error = message_or message "Failed to load data"; loading = false })

  unfoldable pub certificate_loaded :
      Purpose → Answer (CertificateState Info) → Page Info → Page Info × List Request
  unfolding load_failed
  certificate_loaded purpose (answered found) p = (
    record p {
      has_certificate = found.has_certificate;
      certificate_info = if found.has_certificate then found.certificate else p.certificate_info;
    },
    my_requests purpose ∷ [],
  )
  certificate_loaded purpose (failed message) p = (load_failed purpose message p, [])

  unfoldable pub requests_loaded :
      Purpose → Answer (Option (List PastRequest)) → Page Info → Page Info
  unfolding load_failed resumed
  requests_loaded purpose (answered found) p =
      resumed purpose (record p { requests = Option.get_or found []; loading = false })
  requests_loaded purpose (failed message) p = load_failed purpose message p

  unfoldable pub handle_input_change : (FormData → FormData) → Page Info → Page Info
  handle_input_change change p = record p { form_data = change p.form_data }

  -- The button that cancels.
  unfoldable pub cancel_request : Page Info → Page Info
  cancel_request p = record p { show_request_form = false; form_data = empty_form; error = [] }

  -- The button that submits.
  unfoldable pub can_submit : Page Info → Bool
  can_submit p = not (p.submitting || ltb (length p.form_data.reason) 10)

  unfoldable pub handle_submit_request : Page Info → Page Info × List Request
  handle_submit_request p =
      let cleared = record p { error = []; success = [] } in
      if is_empty p.form_data.reason || ltb (length (trim p.form_data.reason)) 10
      then (record cleared { error = lit "Reason must be at least 10 characters" }, [])
      else (record cleared { submitting = true }, creating p.form_data ∷ [])

  -- From the answer on; the button is free again when the data is loaded.
  unfoldable pub request_created : Answer (Unit {0}) → Page Info → Page Info × List Request
  unfolding load_data
  request_created (answered done) p = load_data submission (record p {
    success = lit "Certificate request submitted successfully! Admin will review it.";
    form_data = empty_form;
    show_request_form = false;
  })
  request_created (failed message) p =
      (record p { error = message_or message "Failed to submit request"; submitting = false }, [])

  -- After five seconds.
  unfoldable pub clear_success : Page Info → Page Info
  clear_success p = record p { success = [] }

  renewal_failed : Text → Page Info → Page Info
  renewal_failed message p = record p { error = message; enrolling = false }

  module _ (browser : Browser) (engine_message : Text) where
    -- From the generated keys to the request.
    unfoldable pub send_keys : PastRequest → Result Pair → Page Info → Page Info × List Request
    unfolding renewal_failed
    send_keys request (throw e) p = (renewal_failed (renewal_failure engine_message e) p, [])
    send_keys request (ok pair) p = (
      p,
      renewing request.user_id (Browser.btoa browser pair.spki) (Browser.btoa browser pair.kyber)
          ∷ [],
    )

    unfoldable pub handle_re_enroll :
        PastRequest → (generated : Result Pair) → Page Info → Page Info × List Request
    unfolding renewal_failed send_keys
    handle_re_enroll request generated p =
        let started = record p { error = []; success = []; enrolling = true } in
        if is_used request
        then (
          renewal_failed
              (lit
                "This certificate request has already been used for re-enrollment. Please create a new request.")
              started,
          [],
        )
        else send_keys request generated started

    -- From the answer to the opening of the database, which is asked for if the certificate is issued.
    unfoldable pub re_enrolled : Answer Issued → Page Info → Page Info × Option Issued
    unfolding renewal_failed
    re_enrolled (answered issued) p = (record p { enrolling = false }, some issued)
    re_enrolled (failed message) p = (
      renewal_failed (Option.get_or (truthy message) (renewal_failure engine_message type_error)) p,
      none,
    )

  unfoldable pub database_failed : Page Info → Page Info
  database_failed p = record p { error = lit "Failed to store keys in browser" }
