-- ===== src/Keystore/Secrets.antt =====
-- What is stored in the keystore, and what comes back.
use mathlib.Core.Option
use hybrid_quantum_cryptogra.Prelude.{
  ℕ, ◌≡◌, refl, sym, subst, ◌≢◌, ap, false, Option, none, some, [], arith, ◌∙◌,
}
use hybrid_quantum_cryptogra.Js.{Text, text_eq, text_eq_refl, is_empty, trim, ok, >>=-eq-ok}
use hybrid_quantum_cryptogra.Roles.{truthy}
use hybrid_quantum_cryptogra.Keystore.Platform.{
  Bytes, IsBytes, Browser, Environment, ensure_secure_context, get_subtle_crypto, get, put,
}
use hybrid_quantum_cryptogra.Keystore.{
  StoredRecord, or_else, Records, Encrypted, store_named, encrypt_device_secret_for_storage,
  writing, get_stored_key, empty_record, store_record, store_platform_key, get_stored_device_secret,
  secret_of, decrypt_device_secret_from_record,
}
use hybrid_quantum_cryptogra.Keystore.Database.{get-put}

module _ (browser : Browser) (env : Environment) where
  open browser use {Key, encrypt, decrypt, encode, decode, btoa, atob}

  -- What a call that stored a record has found, and done.
  pub record Stored (fresh : Key) (iv : Bytes) (id : Text) (key : Option Key)
      (option_secret : Option Text) (now : ℕ) (records records' : Records browser) : Type 0 where
    pub given : Key
    pub payload : StoredRecord Key
    pub keyed : key ≡ some given
    pub named : is_empty id ≡ false
    pub secure : ensure_secure_context env ≡ ok tt
    pub readable : env.read_error ≡ none
    pub made :
        store_record browser env fresh iv
          (Option.get_or (get id records) (empty_record browser))
          given
          option_secret
          now
        ≡ ok payload
    pub result : records' ≡ put id payload records

  get_stored_key-eq-ok :
      (id : Text) (records : Records browser) {existing : Option (StoredRecord Key)}
      → is_empty id ≡ false
      → get_stored_key browser env id records ≡ ok existing
      → (existing ≡ get id records) × (ensure_secure_context env ≡ ok tt) × (env.read_error ≡ none)
  unfolding get_stored_key
  get_stored_key-eq-ok id records named e = ground arith

  writing-eq-ok :
      (records : Records browser) {records' : Records browser}
      → writing browser env records ≡ ok records'
      → records' ≡ records
  unfolding writing
  writing-eq-ok records e = ground arith

  get_stored_key_lem :
      (id : Text) (records : Records browser)
      → is_empty id ≡ false
      → ensure_secure_context env ≡ ok tt
      → env.read_error ≡ none
      → get_stored_key browser env id records ≡ ok (get id records)
  unfolding get_stored_key
  get_stored_key_lem id records named secure readable = ground arith

  store_platform_key-store_named :
      (fresh : Key) (iv : Bytes) (id : Text) (key : Key) (option_secret : Option Text) (now : ℕ)
      (records records' : Records browser)
      → store_platform_key browser env fresh iv id (some key) option_secret now records
        ≡ ok records'
      → (is_empty id ≡ false)
        × (store_named browser env fresh iv id key option_secret now records ≡ ok records')
  unfolding store_platform_key
  store_platform_key-store_named fresh iv id key option_secret now records records' e = ground arith

  pub store_platform_key-Stored :
      (fresh : Key) (iv : Bytes) (id : Text) (key : Option Key) (option_secret : Option Text)
      (now : ℕ) (records records' : Records browser)
      → store_platform_key browser env fresh iv id key option_secret now records ≡ ok records'
      → Stored fresh iv id key option_secret now records records'
  unfolding store_platform_key store_named
  store_platform_key-Stored fresh iv id none option_secret now records records' e = cc
  store_platform_key-Stored fresh iv id (some key) option_secret now records records' e =
      let (named, stored) =
        store_platform_key-store_named fresh iv id key option_secret now records records' e in
      let (existing, found, rest) = >>=-eq-ok (get_stored_key browser env id records) _ stored in
      let (payload, made, written) =
        >>=-eq-ok
          (store_record browser env fresh iv (Option.get_or existing (empty_record browser)) key
            option_secret now)
          _ rest in
      let (same, secure, readable) = get_stored_key-eq-ok id records named found in
      record {
        given = key;
        payload = payload;
        keyed = refl;
        named = named;
        secure = secure;
        readable = readable;
        made =
            subst
              (λ (o : Option (StoredRecord Key)).
                store_record browser env fresh iv (Option.get_or o (empty_record browser)) key
                  option_secret now
                ≡ ok payload)
              same made;
        result = writing-eq-ok _ written;
      }

  -- The record that was written is found.
  pub Stored-get :
      (id : Text) (records : Records browser) {payload : StoredRecord Key}
      {records' : Records browser}
      → records' ≡ put id payload records
      → get id records' ≡ some payload
  Stored-get id records {payload} e =
      ap (get id) e ∙ get-put id id payload records ∙ rw (text_eq_refl id)

  -- The record that is written has the key, and no plain secret.
  pub store_record-plain :
      (fresh : Key) (iv : Bytes) (r : StoredRecord Key) (key : Key) (option_secret : Option Text)
      (now : ℕ) {payload : StoredRecord Key}
      → store_record browser env fresh iv r key option_secret now ≡ ok payload
      → (payload.device_secret ≡ none) × (payload.key ≡ some key)
  unfolding store_record
  store_record-plain fresh iv r key option_secret now e = ground arith

  encrypted_by :
      (fresh : Key) (iv : Bytes) (s : Text) (existing : Option Key) {encrypted : Encrypted browser}
      → encrypt_device_secret_for_storage browser env fresh iv s existing ≡ ok encrypted
      → (get_subtle_crypto env ≡ ok tt)
        × (encrypted ≡ record {
          key = Option.get_or existing fresh;
          iv = btoa iv;
          ciphertext = btoa (encrypt (Option.get_or existing fresh) iv (encode (trim s)));
        })
  unfolding encrypt_device_secret_for_storage
  encrypted_by fresh iv s existing e = ground arith

  decrypted :
      (r : StoredRecord Key) (k : Key) (iv : Bytes) (s : Text)
      → get_subtle_crypto env ≡ ok tt
      → decode (encode s) ≡ s
      → IsBytes iv
      → iv ≢ []
      → r.device_secret_ciphertext ≡ some (btoa (encrypt k iv (encode s)))
      → r.device_secret_iv ≡ some (btoa iv)
      → r.device_secret_key ≡ some k
      → secret_of browser env r
          (truthy r.device_secret_ciphertext)
          (truthy r.device_secret_iv)
          r.device_secret_key
        ≡ some s
  unfolding secret_of decrypt_device_secret_from_record truthy
  decrypted r k iv s secure text bytes nonempty c i e = ground (
    arith,
    browser.btoa-ne-nil iv nonempty,
    browser.btoa-ne-nil _ (browser.encrypt-ne-nil k iv (encode s)),
    browser.atob-btoa iv bytes,
    browser.atob-btoa _ (browser.encrypt-IsBytes k iv (encode s) (browser.encode-IsBytes s)),
    browser.decrypt-encrypt k iv (encode s) (browser.encode-IsBytes s),
  )

  -- A secret that went into a record comes out of it, trimmed.
  store_record-secret :
      (fresh : Key) (iv : Bytes) (r : StoredRecord Key) (key : Key) (option_secret : Option Text)
      (now : ℕ) (s : Text) {payload : StoredRecord Key}
      → or_else (truthy option_secret) (truthy r.device_secret) ≡ some s
      → decode (encode (trim s)) ≡ trim s
      → IsBytes iv
      → iv ≢ []
      → store_record browser env fresh iv r key option_secret now ≡ ok payload
      → secret_of browser env payload
          (truthy payload.device_secret_ciphertext)
          (truthy payload.device_secret_iv)
          payload.device_secret_key
        ≡ some (trim s)
  unfolding store_record
  store_record-secret fresh iv r key option_secret now s {payload} chosen text bytes nonempty e =
      let (encrypted, made, same) =
        >>=-eq-ok (encrypt_device_secret_for_storage browser env fresh iv s r.device_secret_key) _
          (rw (chosen, store_record) at e) in
      let (secure, parts) = encrypted_by fresh iv s r.device_secret_key made in
      decrypted payload (Option.get_or r.device_secret_key fresh) iv (trim s) secure text bytes
        nonempty (ground arith) (ground arith) (ground arith)

  pub looked_up :
      (id : Text) (records : Records browser) {r : StoredRecord Key}
      → is_empty id ≡ false
      → ensure_secure_context env ≡ ok tt
      → env.read_error ≡ none
      → get id records ≡ some r
      → get_stored_device_secret browser env id records
        ≡ ok (
            secret_of browser env r
              (truthy r.device_secret_ciphertext)
              (truthy r.device_secret_iv)
              r.device_secret_key)
  unfolding get_stored_device_secret
  looked_up id records named secure readable found = ground arith

  -- The secret that a call chooses, its argument or the plain one of an earlier version, is stored.
  pub chosen_secret :
      (fresh : Key) (iv : Bytes) (id : Text) (key : Option Key) (option_secret : Option Text)
      (s : Text) (now : ℕ) (records records' : Records browser)
      → or_else (truthy option_secret) (
          truthy
            (StoredRecord.device_secret (Option.get_or (get id records) (empty_record browser))))
        ≡ some s
      → decode (encode (trim s)) ≡ trim s
      → IsBytes iv
      → iv ≢ []
      → store_platform_key browser env fresh iv id key option_secret now records ≡ ok records'
      → get_stored_device_secret browser env id records' ≡ ok (some (trim s))
  chosen_secret fresh iv id key option_secret s now records records' chosen text bytes nonempty e =
      let st = store_platform_key-Stored fresh iv id key option_secret now records records' e in
      looked_up id records' st.named st.secure st.readable (found st)
      ∙ ap ok (
          store_record-secret fresh iv _ st.given option_secret now s chosen text bytes nonempty
            st.made)
    where
      found :
          (st : Stored fresh iv id key option_secret now records records')
          → get id records' ≡ some st.payload
      found st = Stored-get id records st.result

-- Storing a key that succeeds puts the key in the record, leaves no plain device secret there, whatever
-- an earlier version kept, and changes no other record.
pub store_platform_key-get :
    (browser : Browser) (env : Environment) (fresh : Browser.Key browser) (iv : Bytes) (id j : Text)
    (key : Option (Browser.Key browser)) (secret : Option Text) (now : ℕ)
    (records records' : Records browser)
    → text_eq id j ≡ false
    → store_platform_key browser env fresh iv id key secret now records ≡ ok records'
    → ((r : StoredRecord (Browser.Key browser)) × (get id records' ≡ some r)
        × (r.device_secret ≡ none)
        × (r.key ≡ key))
      × (get j records' ≡ get j records)
store_platform_key-get browser env fresh iv id j key secret now records records' other e =
    let s = store_platform_key-Stored browser env fresh iv id key secret now records records' e in
    let (plain, keyed) = store_record-plain browser env fresh iv _ s.given secret now s.made in
    (
      (s.payload, Stored-get browser env id records s.result, plain, keyed ∙ sym s.keyed),
      ap (get j) s.result ∙ get-put id j s.payload records ∙ rw other,
    )

-- A device secret that is stored with a key is what a later lookup of that certificate gives, trimmed:
-- through the encryption, base64 and the database. The secret is one that the text encoder keeps, and
-- the initialization vector is a non-empty sequence of bytes.
pub store_platform_key-get_stored_device_secret :
    (browser : Browser) (env : Environment) (fresh : Browser.Key browser) (iv : Bytes) (id : Text)
    (key : Option (Browser.Key browser)) (s : Text) (now : ℕ) (records records' : Records browser)
    → is_empty s ≡ false
    → browser.decode (browser.encode (trim s)) ≡ trim s
    → IsBytes iv
    → iv ≢ []
    → store_platform_key browser env fresh iv id key (some s) now records ≡ ok records'
    → get_stored_device_secret browser env id records' ≡ ok (some (trim s))
unfolding or_else truthy
store_platform_key-get_stored_device_secret browser env fresh iv id key s now records records' given
      text bytes nonempty e =
    chosen_secret browser env fresh iv id key (some s) s now records records' (ground arith) text
      bytes nonempty e

-- The plain secret of an earlier version survives the next storing of a key without a secret: the
-- record keeps it encrypted from then on, and a later lookup gives it, trimmed.
pub store_platform_key-migrates :
    (browser : Browser) (env : Environment) (fresh : Browser.Key browser) (iv : Bytes) (id : Text)
    (key : Option (Browser.Key browser)) (s : Text) (now : ℕ) (records records' : Records browser)
    (r : StoredRecord (Browser.Key browser))
    → get id records ≡ some r
    → truthy r.device_secret ≡ some s
    → browser.decode (browser.encode (trim s)) ≡ trim s
    → IsBytes iv
    → iv ≢ []
    → store_platform_key browser env fresh iv id key none now records ≡ ok records'
    → get_stored_device_secret browser env id records' ≡ ok (some (trim s))
unfolding or_else truthy
store_platform_key-migrates browser env fresh iv id key s now records records' r old plain text
      bytes nonempty e =
    chosen_secret browser env fresh iv id key none s now records records' (rw old plain) text bytes
      nonempty e
