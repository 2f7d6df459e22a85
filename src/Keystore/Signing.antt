-- ===== src/Keystore/Signing.antt =====
-- frontend/src/utils/platformKeystore.js: signing with a stored key.
use hybrid_quantum_cryptogra.Prelude.{
  ◌≡◌, refl, sym, ap, inl, inr, Option-cases, Option, none, some,
}
use hybrid_quantum_cryptogra.Js.{
  Text, lit, error, Result, ok, throw, ◌>>=◌, >>=_ok, >>=-eq-ok, ok-injective, throw-ne-ok,
}
use hybrid_quantum_cryptogra.Keystore.Platform.{Bytes, Browser, Environment}
use hybrid_quantum_cryptogra.Keystore.{
  StoredRecord, Records, get_stored_key, ensure_platform_key, array_buffer_to_base64,
}

module _ (browser : Browser) (sign : Browser.Key browser → Bytes → Bytes) where
  signed : Option (StoredRecord (Browser.Key browser)) → Bytes → Result Text
  unfolding array_buffer_to_base64
  signed none message = throw (error (lit "Secure device key unavailable. Re-enroll certificate."))
  signed (some stored) message = elim (stored.key) [
    | none ↦ throw (error (lit "Secure device key unavailable. Re-enroll certificate."))
    | some key ↦ ok (array_buffer_to_base64 browser (sign key message))
  ]

  unfoldable pub sign_with_platform_key :
      Environment → Text → (message : Bytes) → Records browser → Result Text
  unfolding signed get_stored_key
  sign_with_platform_key env id message records =
      get_stored_key browser env id records >>= λ stored. signed stored message

  signed-eq-ok :
      (env : Environment) (id : Text) (records : Records browser)
      (stored : Option (StoredRecord (Browser.Key browser))) (message : Bytes) {signature : Text}
      → get_stored_key browser env id records ≡ ok stored
      → signed stored message ≡ ok signature
      → (key : Browser.Key browser) × (ensure_platform_key browser env id records ≡ ok key)
        × (signature ≡ array_buffer_to_base64 browser (sign key message))
  unfolding signed ensure_platform_key
  signed-eq-ok env id records none message found e = absurd (throw-ne-ok e)
  signed-eq-ok env id records (some stored) message found e = elim (Option-cases (stored.key)) [
    | inl missing ↦ absurd (throw-ne-ok (rw (missing, signed) at e))
    | inr (key, there) ↦ (
      key,
      >>=_ok _ found (rw (there, ensure_platform_key) refl),
      sym (ok-injective (rw (there, signed) at e)),
    )
  ]

  -- A signature is one by the key that is stored.
  pub sign_with_platform_key-eq-ok :
      (env : Environment) (id : Text) (message : Bytes) (records : Records browser)
      {signature : Text}
      → sign_with_platform_key env id message records ≡ ok signature
      → (key : Browser.Key browser) × (ensure_platform_key browser env id records ≡ ok key)
        × (signature ≡ array_buffer_to_base64 browser (sign key message))
  unfolding sign_with_platform_key
  sign_with_platform_key-eq-ok env id message records e =
      let (stored, found, rest) = >>=-eq-ok (get_stored_key browser env id records) _ e in
      signed-eq-ok env id records stored message found rest

  module _ (env : Environment) (id : Text) (message : Bytes) (records : Records browser)
      {key : Browser.Key browser} where
    signed-key :
        (stored : Option (StoredRecord (Browser.Key browser)))
        → get_stored_key browser env id records ≡ ok stored
        → ensure_platform_key browser env id records ≡ ok key
        → signed stored message ≡ ok (array_buffer_to_base64 browser (sign key message))
    unfolding signed ensure_platform_key
    signed-key none found e = absurd (throw-ne-ok (rw found at e))
    signed-key (some stored) found e = elim (Option-cases (stored.key)) [
      | inl missing ↦ absurd (throw-ne-ok (rw (found, missing) at e))
      | inr (k, there) ↦
          rw (there, signed)
            (ap (λ key. ok (array_buffer_to_base64 browser (sign key message)))
              (ok-injective (rw (found, there) at e)))
    ]

    -- A key that can be had signs.
    pub ensure_platform_key-sign_with_platform_key :
        ensure_platform_key browser env id records ≡ ok key
        → sign_with_platform_key env id message records
          ≡ ok (array_buffer_to_base64 browser (sign key message))
    unfolding sign_with_platform_key ensure_platform_key
    ensure_platform_key-sign_with_platform_key e =
        let (stored, found, rest) = >>=-eq-ok (get_stored_key browser env id records) _ e in
        rw found (signed-key stored found e)
