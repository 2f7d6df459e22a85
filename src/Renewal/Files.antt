-- ===== src/Renewal/Files.antt =====
-- frontend/src/pages/customer/CertificateRequest/CertificateRequest.jsx over
-- frontend/src/utils/platformKeystore.js: the file with the private key.
use hybrid_quantum_cryptogra.Prelude.{◌≡◌, ◌≢◌, refl, ap, ◌∙◌, [], append-nil, sym, arith}
use hybrid_quantum_cryptogra.Js.{Text, lit, is_empty, Thrown, ok, Lacks}
use hybrid_quantum_cryptogra.Keystore.Platform.{Bytes, IsBytes, Browser}
use hybrid_quantum_cryptogra.Keystore.Pem.{without_space, pem_body_to_array_buffer}
use hybrid_quantum_cryptogra.Keystore.Pem.Armour.{armoured, pem_body_to_array_buffer-armoured}
use hybrid_quantum_cryptogra.Renewal.Lines.{private_key_pem}
use hybrid_quantum_cryptogra.Renewal.Lines.Armoured.{IsBase64, private_key_pem-armoured}

label_undashed : Lacks b'-' (lit "PRIVATE KEY")
unfolding lit
label_undashed = ground arith

module _ (browser : Browser) (encoding_error : Thrown) where
  imports_private_key :
      (body : Text) (bytes : Bytes)
      → Lacks b'-' body
      → IsBytes bytes
      → without_space body ≡ browser.btoa bytes
      → pem_body_to_array_buffer browser encoding_error (armoured (lit "PRIVATE KEY") body)
        ≡ ok bytes
  unfolding lit
  imports_private_key body bytes h k e =
      ap (pem_body_to_array_buffer browser encoding_error)
        (sym (append-nil (armoured (lit "PRIVATE KEY") body)))
      ∙ pem_body_to_array_buffer-armoured browser encoding_error [] (lit "PRIVATE KEY") body []
          bytes tt tt (unfold is_empty in refl) label_undashed h k e

  -- Where the bytes of the exported key are not empty and base64 is written in its alphabet, the file that is
  -- made of them is imported as the same bytes.
  private_key_pem-imported :
      (bytes : Bytes)
      → bytes ≢ []
      → IsBytes bytes
      → IsBase64 (browser.btoa bytes)
      → (pem : Text) × (private_key_pem (browser.btoa bytes) ≡ ok pem)
        × (pem_body_to_array_buffer browser encoding_error pem ≡ ok bytes)
  private_key_pem-imported bytes given in_range alphabet =
      let (body, made, kept, undashed) =
        private_key_pem-armoured (browser.btoa bytes) (browser.btoa-ne-nil bytes given) alphabet in
      (
        armoured (lit "PRIVATE KEY") body,
        made,
        imports_private_key body bytes undashed in_range kept,
      )
