-- ===== src/Signup/Sealing.antt =====
-- frontend/src/components/auth/CustomerSignup.jsx: a delivered certificate is opened with the server's
-- secret, the password and the certificate's id.
use hybrid_quantum_cryptogra.Prelude.{◌≡◌, ◌≢◌, refl, ap, ◌∙◌, true, false, some, [], ◌++◌, String}
use hybrid_quantum_cryptogra.Js.{Text, is_empty, Thrown, Result, ok, >>=_ok}
use hybrid_quantum_cryptogra.Roles.{truthy}
use hybrid_quantum_cryptogra.Keystore.Platform.{Bytes, IsBytes, Browser, Environment}
use hybrid_quantum_cryptogra.Login.Parts.{Crypto, buffer_to_hex}
use hybrid_quantum_cryptogra.Signup.Delivery.{
  Delivery, base64_to_bytes, present, complete_delivery, ensure_subtle, opened, derive_delivery_key,
  decrypt_delivery_bundle, hex_to_bytes,
}
use hybrid_quantum_cryptogra.Signup.Hex.{hex_to_bytes-buffer_to_hex}

module _ {browser : Browser} (crypto : Crypto browser) where
  open crypto use {env, sha3_256}
  open browser use {
    Key, encrypt, decrypt, encode, decode, atob, btoa, encode-IsBytes, encrypt-IsBytes,
    encrypt-ne-nil, decrypt-encrypt, atob-btoa, btoa-ne-nil,
  }

  base64_to_bytes-btoa :
      (bytes : Bytes) → IsBytes bytes → bytes ≢ [] → base64_to_bytes crypto (btoa bytes) ≡ ok bytes
  unfolding base64_to_bytes
  base64_to_bytes-btoa bytes h nonempty =
      rw (btoa-ne-nil bytes nonempty) (rw (atob-btoa bytes h) refl)

  present_lem :
      (text : Text) (message : String)
      → is_empty text ≡ false
      → present (some text) message ≡ ok text
  unfolding present truthy
  present_lem text message given = rw (given, present) refl

  derived :
      (kyber digest : Bytes) (password id : Text)
      → IsBytes kyber
      → kyber ≢ []
      → is_empty password ≡ false
      → is_empty id ≡ false
      → IsBytes digest
      → sha3_256 (kyber ++ (encode password ++ (encode id ++ []))) ≡ buffer_to_hex digest
      → derive_delivery_key crypto (btoa kyber) password (some id) ≡ ok digest
  unfolding derive_delivery_key
  derived kyber digest password id bytes nonempty given named range hashed =
      >>=_ok _ (present_lem (btoa kyber) _ (btoa-ne-nil kyber nonempty)) (
        >>=_ok _ (present_lem password _ given) (
          >>=_ok _ (present_lem id _ named) (
            >>=_ok _ (base64_to_bytes-btoa kyber bytes nonempty)
              (ap ok (ap hex_to_bytes hashed ∙ hex_to_bytes-buffer_to_hex digest range)))))

  ensure_subtle_lem : Environment.has_subtle env ≡ true → ensure_subtle crypto ≡ ok tt
  unfolding ensure_subtle
  ensure_subtle_lem available = rw available refl

  -- The bundle that holds a text, sealed with AES-GCM.
  abbrev pub sealed : Key → (nonce : Bytes) → Text → Delivery
  sealed key nonce text = record {
    ciphertext = some (btoa (encrypt key nonce (encode text)));
    nonce = some (btoa nonce);
  }

  -- A text that the server has sealed, under the key made of the digest of its secret, the password and the
  -- certificate's id, is read again. The browser has WebCrypto, the secret, password, id and nonce are not
  -- empty, the secret, the digest and the nonce are bytes, and the text encoder keeps the text.
  pub decrypt_delivery_bundle-sealed :
      (import_aes : Bytes → Result Key) (decryption_error : Thrown) (key : Key)
      (kyber digest nonce : Bytes) (password id text : Text)
      → Environment.has_subtle env ≡ true
      → IsBytes kyber
      → kyber ≢ []
      → is_empty password ≡ false
      → is_empty id ≡ false
      → IsBytes digest
      → sha3_256 (kyber ++ (encode password ++ (encode id ++ []))) ≡ buffer_to_hex digest
      → import_aes digest ≡ ok key
      → IsBytes nonce
      → nonce ≢ []
      → decode (encode text) ≡ text
      → decrypt_delivery_bundle crypto import_aes decryption_error
          (some (sealed key nonce text))
          (btoa kyber)
          password
          (some id)
        ≡ ok text
  unfolding decrypt_delivery_bundle complete_delivery ensure_subtle opened
  decrypt_delivery_bundle-sealed import_aes decryption_error key kyber digest nonce password id text
        subtle bytes nonempty given named range hashed imported nonce_bytes nonce_nonempty kept =
      let boxed = encrypt-IsBytes key nonce (encode text) (encode-IsBytes text) in
      let filled = encrypt-ne-nil key nonce (encode text) in
      >>=_ok _
        (>>=_ok _ (present_lem _ _ (btoa-ne-nil _ filled))
          (>>=_ok _ (present_lem _ _ (btoa-ne-nil _ nonce_nonempty)) refl))
        (>>=_ok _ (ensure_subtle_lem subtle) (
          >>=_ok _ (derived kyber digest password id bytes nonempty given named range hashed) (
            >>=_ok _ imported (
              >>=_ok _ (base64_to_bytes-btoa _ boxed filled) (
                >>=_ok _ (base64_to_bytes-btoa _ nonce_bytes nonce_nonempty) (
                  rw (decrypt-encrypt key nonce (encode text) (encode-IsBytes text), opened)
                    (ap ok kept)))))))
