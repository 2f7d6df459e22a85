-- ===== src/Tests/Renewal.antt =====
-- CertificateRequest.jsx at concrete inputs, over the browser of the tests of platformKeystore.js.
use hybrid_quantum_cryptogra.Prelude.{◌≡◌, refl, none, some, [], ◌∷◌}
use hybrid_quantum_cryptogra.Js.{Text, lit, ok, contains, or_empty, is_empty, trim, is_space}
use hybrid_quantum_cryptogra.Answers.{failed}
use hybrid_quantum_cryptogra.Roles.{truthy}
use hybrid_quantum_cryptogra.Renewal.{
  PastRequest, Page, Pair, initial_page, handle_input_change, handle_submit_request,
  handle_re_enroll, re_enrolled, renewal_failure, is_used, renewing,
}
use hybrid_quantum_cryptogra.Renewal.Lines.{matches}
use hybrid_quantum_cryptogra.Tests.Keys.{browser}

-- More than a line of base64.
abbrev key_text : Text
key_text = lit "MIIG/QIBADANBgkqhkiG9w0BAQEFAASCBucwggbjAgEAAoIBgQC7+k3sVYp2bX9nR4tE0Q=="

abbrev page : Page Unit
unfolding initial_page
page = initial_page

abbrev pair : Pair
pair = record { spki = lit "spki"; pkcs8 = ok key_text; kyber = lit "kyber" }

lines_of_64 : matches 3 [] (lit "abcde\nf") ≡ lit "abc" ∷ lit "de" ∷ lit "f" ∷ []
unfolding matches lit
lines_of_64 = refl

abbrev approved : PastRequest
approved = record {
  user_id = lit "7";
  request_type = lit "RENEWAL";
  status = lit "APPROVED";
  reason = lit "expires soon";
  admin_notes = none;
}

keys_sent :
    (handle_re_enroll browser (lit "boom") approved (ok pair) page).1
    ≡ renewing (lit "7") (lit "spki") (lit "kyber") ∷ []
unfolding handle_re_enroll is_used lit contains or_empty
keys_sent = refl

used_refused :
    (handle_re_enroll browser
      (lit "boom")
      (record approved {
        admin_notes = some (lit "Certificate issued on re-enrollment 2026-01-01");
      })
      (ok pair)
      page).1
    ≡ []
unfolding handle_re_enroll is_used lit contains or_empty
used_refused = refl

spaces_refused :
    (handle_submit_request
      (handle_input_change (λ form. record form { reason = lit "short     " }) page)).1
    ≡ []
unfolding handle_submit_request handle_input_change lit is_empty trim is_space
spaces_refused = refl

failure_told :
    (re_enrolled browser (lit "Network Error") (failed none) page).0.error ≡ lit "Network Error"
unfolding re_enrolled renewal_failure lit truthy is_empty
failure_told = refl
