-- ===== src/Keystore/Keys.antt =====
-- What happens to device keys and earlier secrets when a record is stored again or removed.

use hybrid_quantum_cryptogra.Prelude.{ℕ, ◌≡◌, sym, ap, ◌∙◌, false, Option, none, some, arith}
use hybrid_quantum_cryptogra.Js.{Text, text_eq, text_eq_refl, is_empty, ok}
use hybrid_quantum_cryptogra.Roles.{truthy}
use hybrid_quantum_cryptogra.Keystore.Platform.{
  Bytes, Browser, Environment, ensure_secure_context, get, delete,
}
use hybrid_quantum_cryptogra.Keystore.{
  StoredRecord, Records, store_record, store_platform_key, remove_platform_key, enroll_platform_key,
  get_stored_device_secret, ensure_platform_key, secret_of,
}
use hybrid_quantum_cryptogra.Keystore.Database.{get-delete}
use hybrid_quantum_cryptogra.Keystore.Secrets.{
  store_platform_key-Stored, Stored-get, store_record-plain, looked_up,
}

module _ (browser : Browser) (env : Environment) where
  open browser use {Key}

  kept :
      (fresh : Key) (iv : Bytes) (r : StoredRecord Key) (key : Key) (now : ℕ)
      {payload : StoredRecord Key}
      → truthy r.device_secret ≡ none
      → store_record browser env fresh iv r key none now ≡ ok payload
      → secret_of browser env payload
          (truthy payload.device_secret_ciphertext)
          (truthy payload.device_secret_iv)
          payload.device_secret_key
        ≡ secret_of browser env r
            (truthy r.device_secret_ciphertext)
            (truthy r.device_secret_iv)
            r.device_secret_key
  unfolding store_record secret_of
  kept fresh iv r key now plain e = ground arith

  ensured :
      (id : Text) (key : Key) (records : Records browser) (r : StoredRecord Key)
      → is_empty id ≡ false
      → ensure_secure_context env ≡ ok tt
      → env.read_error ≡ none
      → get id records ≡ some r
      → r.key ≡ some key
      → ensure_platform_key browser env id records ≡ ok key
  unfolding ensure_platform_key
  ensured id key records r named secure readable found keyed = ground arith

  module _ (fresh : Key) (iv : Bytes) (id : Text) (secret : Option Text) (now : ℕ)
      (records : Records browser) {records' : Records browser} where
    -- An enrollment that goes through has an id, and is a storing.
    pub enroll_platform_key-store_platform_key :
        (key : Option Key)
        → enroll_platform_key browser env fresh iv id key secret now records ≡ ok records'
        → (is_empty id ≡ false)
          × (store_platform_key browser env fresh iv id key secret now records ≡ ok records')
    unfolding enroll_platform_key
    enroll_platform_key-store_platform_key none e = cc
    enroll_platform_key-store_platform_key (some key) e = ground arith

  removed :
      (id : Text) (records : Records browser) {records' : Records browser}
      → is_empty id ≡ false
      → remove_platform_key browser env id records ≡ ok records'
      → records' ≡ delete id records
  unfolding remove_platform_key
  removed id records named e = ground arith

-- A device secret that is stored encrypted survives the storing of another key without a secret: a
-- lookup gives the same answer before and after.
pub store_platform_key-keeps :
    (browser : Browser) (env : Environment) (fresh : Browser.Key browser) (iv : Bytes) (id : Text)
    (key : Option (Browser.Key browser)) (now : ℕ) (records records' : Records browser)
    (r : StoredRecord (Browser.Key browser))
    → get id records ≡ some r
    → truthy r.device_secret ≡ none
    → store_platform_key browser env fresh iv id key none now records ≡ ok records'
    → get_stored_device_secret browser env id records'
      ≡ get_stored_device_secret browser env id records
store_platform_key-keeps browser env fresh iv id key now records records' r old plain e =
    let st = store_platform_key-Stored browser env fresh iv id key none now records records' e in
    looked_up browser env id records' st.named st.secure st.readable
      (Stored-get browser env id records st.result)
    ∙ ap ok (kept browser env fresh iv r st.given now plain (rw old at (st.made)))
    ∙ sym (looked_up browser env id records st.named st.secure st.readable old)

-- After an enrollment the key can be had, and it is the one that was enrolled.
pub enroll_platform_key-ensure_platform_key :
    (browser : Browser) (env : Environment) (fresh : Browser.Key browser) (iv : Bytes) (id : Text)
    (key : Browser.Key browser) (secret : Option Text) (now : ℕ)
    (records records' : Records browser)
    → enroll_platform_key browser env fresh iv id (some key) secret now records ≡ ok records'
    → ensure_platform_key browser env id records' ≡ ok key
enroll_platform_key-ensure_platform_key browser env fresh iv id key secret now records records' e =
    let st =
      store_platform_key-Stored browser env fresh iv id (some key) secret now records records'
        (enroll_platform_key-store_platform_key browser env fresh iv id secret now records
          (some key) e).1 in
    let (_, keyed) = store_record-plain browser env fresh iv _ st.given secret now st.made in
    ensured browser env id key records' st.payload st.named st.secure st.readable
      (Stored-get browser env id records st.result) (keyed ∙ sym st.keyed)

-- A key that was removed under a non-empty id is gone, with its device secret; the other records stay.
pub remove_platform_key-get :
    (browser : Browser) (env : Environment) (id j : Text) (records records' : Records browser)
    → is_empty id ≡ false
    → text_eq id j ≡ false
    → remove_platform_key browser env id records ≡ ok records'
    → (get id records' ≡ none) × (get j records' ≡ get j records)
remove_platform_key-get browser env id j records records' named other e =
    let gone = removed browser env id records named e in
    (
      ap (get id) gone ∙ get-delete id id records ∙ rw (text_eq_refl id),
      ap (get j) gone ∙ get-delete id j records ∙ rw other,
    )
