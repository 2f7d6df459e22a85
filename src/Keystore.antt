-- ===== src/Keystore.antt =====
-- frontend/src/utils/platformKeystore.js: the device keys and the device secrets that the browser
-- keeps, the secrets encrypted. The database holds a record for each certificate id; opening it and
-- upgrading its schema is not modelled, but that this may fail is.
pub mod Platform
pub mod Database
pub mod Secrets
pub mod Keys
pub mod Signing
pub mod Pem
pub mod Generation
use mathlib.Core.Option
use hybrid_quantum_cryptogra.Prelude.{
  ◌==◌, ℕ, ◌+◌, ◌<◌, ◌≡◌, ◌≢◌, Bool, true, false, Option, none, some, List, [], ◌∷◌, if◌then◌else◌,
  All, map, String,
}
use hybrid_quantum_cryptogra.Js.{
  Text, lit, text_eq, is_empty, trim, or_empty, Thrown, error, type_error, Result, ok, throw, ◌>>=◌,
  ◌>>◌,
}
use hybrid_quantum_cryptogra.Roles.{truthy}
use Platform.{
  Bytes, IsBytes, Browser, Environment, ensure_secure_context, get_subtle_crypto, fail_with, get,
  put, delete,
}

-- A stored record; `device_secret` is the plain secret of earlier versions.
pub record StoredRecord (Key : Type 0) : Type 0 where
  pub key : Option Key
  pub created_at : Option ℕ
  pub updated_at : Option ℕ
  pub device_secret : Option Text
  pub device_secret_key : Option Key
  pub device_secret_iv : Option Text
  pub device_secret_ciphertext : Option Text
  pub device_secret_stored_at : Option ℕ
  pub device_secret_version : Option ℕ

-- `value || fallback` for a time: 0 counts as missing.
or_time : Option ℕ → ℕ → ℕ
or_time none now = now
or_time (some t) now = if t == 0 then now else t

-- `a || b` for keys and for texts that may be missing.
unfoldable pub or_else : {A : Type 0} → Option A → Option A → Option A
or_else none b = b
or_else (some a) b = some a

module _ (browser : Browser) where
  open browser use {Key, encrypt, decrypt, encode, decode, btoa, atob}

  abbrev pub Records : Type 0
  Records = List (Text × StoredRecord Key)

  unfoldable pub array_buffer_to_base64 : Bytes → Text
  array_buffer_to_base64 bytes = btoa bytes

  -- An empty text gives an empty buffer; `atob` may throw.
  unfoldable pub base64_to_array_buffer : Text → Option Bytes
  base64_to_array_buffer value = if is_empty value then some [] else atob value

  pub record Encrypted : Type 0 where
    pub key : Key
    pub iv : Text
    pub ciphertext : Text

  -- `fresh` is the key that `generateKey` would make and `iv` what `getRandomValues` returns.
  unfoldable pub encrypt_device_secret_for_storage :
      Environment → (fresh : Key) → (iv : Bytes) → Text → Option Key → Result Encrypted
  unfolding get_subtle_crypto array_buffer_to_base64
  encrypt_device_secret_for_storage env fresh iv secret existing_key =
      if is_empty (trim secret)
      then throw (error (lit "deviceSecret must be provided for secure storage"))
      else do
        get_subtle_crypto env
        let key = Option.get_or existing_key fresh
        ok (record {
          key = key;
          iv = array_buffer_to_base64 iv;
          ciphertext = array_buffer_to_base64 (encrypt key iv (encode (trim secret)));
        })

  -- Any failure on the way is caught and gives null.
  decrypt_with : Environment → Key → Option Bytes → Option Bytes → Option Text
  unfolding get_subtle_crypto
  decrypt_with env k (some iv) (some ciphertext) = elim (get_subtle_crypto env) [
    | ok _ ↦ Option.map decode (decrypt k iv ciphertext)
    | throw e ↦ none
  ]
  decrypt_with env k _ _ = none

  decrypt_parts : Environment → Option Text → Option Text → Option Key → Option Text
  unfolding decrypt_with base64_to_array_buffer
  decrypt_parts env (some ciphertext) (some iv) (some k) =
      decrypt_with env k (base64_to_array_buffer iv) (base64_to_array_buffer ciphertext)
  decrypt_parts env _ _ _ = none

  unfoldable pub decrypt_device_secret_from_record : Environment → StoredRecord Key → Option Text
  unfolding decrypt_parts truthy
  decrypt_device_secret_from_record env r =
      decrypt_parts env (truthy r.device_secret_ciphertext) (truthy r.device_secret_iv)
        r.device_secret_key

  -- A transaction that reads, and one that writes: the database is opened in a secure context only.
  reading : {A : Type 0} → Environment → A → Result A
  unfolding ensure_secure_context fail_with
  reading env a = do ensure_secure_context env; fail_with env.read_error; ok a

  writing : Environment → Records → Result Records
  unfolding ensure_secure_context fail_with
  writing env records = do ensure_secure_context env; fail_with env.write_error; ok records

  unfoldable pub get_stored_key : Environment → Text → Records → Result (Option (StoredRecord Key))
  unfolding reading get
  get_stored_key env id records = if is_empty id then ok none else reading env (get id records)

  unfoldable pub empty_record : StoredRecord Key
  empty_record = record {
    key = none;
    created_at = none;
    updated_at = none;
    device_secret = none;
    device_secret_key = none;
    device_secret_iv = none;
    device_secret_ciphertext = none;
    device_secret_stored_at = none;
    device_secret_version = none;
  }

  -- The new record before a secret is added: the old one without the plain secret of earlier versions.
  renewed : StoredRecord Key → Key → ℕ → StoredRecord Key
  unfolding or_time
  renewed r key now = record r {
    key = some key;
    created_at = some (or_time r.created_at now);
    updated_at = some now;
    device_secret = none;
  }

  with_secret : StoredRecord Key → ℕ → Encrypted → StoredRecord Key
  with_secret r now encrypted = record r {
    device_secret_key = some encrypted.key;
    device_secret_iv = some encrypted.iv;
    device_secret_ciphertext = some encrypted.ciphertext;
    device_secret_stored_at = some now;
    device_secret_version = some 1;
  }

  unfoldable pub store_record :
      Environment
      → (fresh : Key) → (iv : Bytes) → StoredRecord Key
      → Key
      → Option Text
      → ℕ
      → Result (StoredRecord Key)
  unfolding renewed with_secret encrypt_device_secret_for_storage or_else
  store_record env fresh iv r key option_secret now =
      elim (or_else (truthy option_secret) (truthy r.device_secret)) [
        | none ↦ ok (renewed r key now)
        | some secret ↦
            encrypt_device_secret_for_storage env fresh iv secret r.device_secret_key
            >>= λ encrypted. ok (with_secret (renewed r key now) now encrypted)
      ]

  -- `storePlatformKey` after its first check.
  unfoldable pub store_named :
      Environment
      → (fresh : Key) → (iv : Bytes) → Text
      → Key
      → Option Text
      → (now : ℕ) → Records
      → Result Records
  unfolding get_stored_key store_record writing put empty_record
  store_named env fresh iv id key option_secret now records =
      get_stored_key env id records >>= λ existing.
      store_record env fresh iv (Option.get_or existing empty_record) key option_secret now
      >>= λ payload. writing env (put id payload records)

  -- The records after the call, or the error that it ends with; `key` is missing where it is falsy.
  unfoldable pub store_platform_key :
      Environment
      → (fresh : Key) → (iv : Bytes) → Text
      → Option Key
      → Option Text
      → (now : ℕ) → Records
      → Result Records
  store_platform_key env fresh iv id none option_secret now records =
      throw (error (lit "certificateId and key are required for storage"))
  store_platform_key env fresh iv id (some key) option_secret now records =
      if is_empty id
      then throw (error (lit "certificateId and key are required for storage"))
      else store_named env fresh iv id key option_secret now records

  unfoldable pub remove_platform_key : Environment → Text → Records → Result Records
  unfolding writing delete
  remove_platform_key env id records =
      if is_empty id then ok records else writing env (delete id records)

  unfoldable pub enroll_platform_key :
      Environment
      → (fresh : Key) → (iv : Bytes) → Text
      → Option Key
      → Option Text
      → (now : ℕ) → Records
      → Result Records
  unfolding store_platform_key
  enroll_platform_key env fresh iv id none option_secret now records =
      throw (error (lit "certificateId and privateKey are required for enrollment"))
  enroll_platform_key env fresh iv id (some key) option_secret now records =
      if is_empty id
      then throw (error (lit "certificateId and privateKey are required for enrollment"))
      else store_platform_key env fresh iv id (some key) option_secret now records

  -- An encrypted secret is used where all its parts are there, and a plain one otherwise.
  unfoldable pub secret_of :
      Environment → StoredRecord Key → Option Text → Option Text → Option Key → Option Text
  unfolding decrypt_device_secret_from_record
  secret_of env r (some ciphertext) (some iv) (some k) = decrypt_device_secret_from_record env r
  secret_of env r _ _ _ = truthy r.device_secret

  unfoldable pub get_stored_device_secret : Environment → Text → Records → Result (Option Text)
  unfolding get_stored_key secret_of
  get_stored_device_secret env id records =
      if is_empty id
      then ok none
      else get_stored_key env id records >>= elim [
        | none ↦ ok none
        | some r ↦ ok (
            secret_of env r (truthy r.device_secret_ciphertext) (truthy r.device_secret_iv)
              r.device_secret_key)
      ]

  key_of : Option (StoredRecord Key) → Option Key
  key_of none = none
  key_of (some r) = r.key

  unfoldable pub ensure_platform_key : Environment → Text → Records → Result Key
  unfolding get_stored_key key_of
  ensure_platform_key env id records = get_stored_key env id records >>= λ existing.
      elim (key_of existing) [
        | none ↦
            throw
              (error (lit "Secure key material missing. Re-enroll this certificate on the device."))
        | some key ↦ ok key
      ]

  unfoldable pub has_platform_key : Environment → Text → Records → Result Bool
  unfolding get_stored_key key_of
  has_platform_key env id records = get_stored_key env id records >>= λ existing.
      elim (key_of existing) [ none ↦ ok false | some key ↦ ok true ]

  -- The database gives the ids in its own order, which is not modelled.
  unfoldable pub list_enrolled_certificates : Environment → Records → Result (List Text)
  unfolding reading
  list_enrolled_certificates env records = reading env (map (λ entry. entry.0) records)
