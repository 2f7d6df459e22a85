-- ===== src/Tests/Keys.antt =====
-- platformKeystore.js at concrete inputs, over a browser that meets the assumptions: its encryption
-- puts a tag that is made from the key before the text.

use hybrid_quantum_cryptogra.Prelude.{
  ℕ, ◌%◌, ◌≡◌, refl, ◌≢◌, true, false, Option, none, some, [], ◌∷◌, ◌++◌, map, arith, if◌then◌else◌,
  ◌==◌,
}
use hybrid_quantum_cryptogra.Js.{
  Text, lit, text_eq, is_empty, trim, is_space, ok, type_error, IsBlank, Lacks,
}
use hybrid_quantum_cryptogra.Roles.{truthy}
use hybrid_quantum_cryptogra.Keystore.Platform.{Bytes, IsBytes, Browser, Environment, get, delete}
use hybrid_quantum_cryptogra.Keystore.{
  StoredRecord, Records, store_platform_key, enroll_platform_key, remove_platform_key,
  get_stored_device_secret, store_named,
}
use hybrid_quantum_cryptogra.Keystore.Pem.{without_space, pem_body_to_array_buffer}
use hybrid_quantum_cryptogra.Keystore.Pem.Armour.{armoured, pem_body_to_array_buffer-armoured}
use hybrid_quantum_cryptogra.Keystore.Secrets.{
  store_platform_key-get_stored_device_secret, store_platform_key-get, store_platform_key-migrates,
}
use hybrid_quantum_cryptogra.Keystore.Keys.{store_platform_key-keeps}

abbrev pub units : Text → Bytes
units s = map (λ c. c % 256) s

pub units-IsBytes : (s : Text) → IsBytes (units s)
units-IsBytes [] = tt
units-IsBytes (c ∷ s) = (omega arith, units-IsBytes s)

abbrev pub seal : ℕ → Bytes → Bytes → Bytes
seal k iv m = k % 256 ∷ m

abbrev pub unseal : ℕ → Bytes → Bytes → Option Bytes
unseal k iv [] = none
unseal k iv (tag ∷ m) = if tag == k % 256 then some m else none

pub unseal-seal : (k : ℕ) (iv m : Bytes) → unseal k iv (seal k iv m) ≡ some m
unseal-seal k iv m = ground arith

pub seal-ne-nil : (k : ℕ) (iv m : Bytes) → seal k iv m ≢ []
seal-ne-nil k iv m h = cc

pub is_empty-ne-nil : (bytes : Bytes) → bytes ≢ [] → is_empty bytes ≡ false
unfolding is_empty
is_empty-ne-nil [] h = absurd (h refl)
is_empty-ne-nil (b ∷ bytes) h = refl

pub seal-IsBytes : (k : ℕ) (iv m : Bytes) → IsBytes m → IsBytes (seal k iv m)
seal-IsBytes k iv m h = (omega arith, h)

abbrev pub browser : Browser
browser = record {
  Key = ℕ;
  encrypt = seal;
  decrypt = unseal;
  encode = units;
  decode = λ bytes. bytes;
  btoa = λ bytes. bytes;
  atob = λ s. some s;
  encode-IsBytes = units-IsBytes;
  decrypt-encrypt = λ k iv m h. unseal-seal k iv m;
  encrypt-IsBytes = seal-IsBytes;
  encrypt-ne-nil = seal-ne-nil;
  atob-btoa = λ bytes h. refl;
  btoa-ne-nil = is_empty-ne-nil;
}

abbrev pub env : Environment
env = record {
  has_storage = true;
  is_secure_context = true;
  has_subtle = true;
  read_error = none;
  write_error = none;
}

abbrev pub iv : Bytes
iv = 1 ∷ 2 ∷ 3 ∷ []

abbrev pub old_record : StoredRecord ℕ
old_record = record {
  key = some 7;
  created_at = some 10;
  updated_at = some 10;
  device_secret = some (lit " pin ");
  device_secret_key = none;
  device_secret_iv = none;
  device_secret_ciphertext = none;
  device_secret_stored_at = none;
  device_secret_version = none;
}

abbrev pub new_record : Text → StoredRecord ℕ
new_record ciphertext = record old_record {
  key = some 8;
  updated_at = some 20;
  device_secret = none;
  device_secret_key = some 5;
  device_secret_iv = some iv;
  device_secret_ciphertext = some ciphertext;
  device_secret_stored_at = some 20;
  device_secret_version = some 1;
}

abbrev old_records : Records browser
old_records = (lit "C-1", old_record) ∷ []

abbrev new_records : Records browser
new_records = (lit "C-1", new_record (5 ∷ lit "pin")) ∷ []

unfoldable pub keys : Unit {0}
unfolding store_platform_key store_named get text_eq lit trim is_space is_empty truthy
    enroll_platform_key remove_platform_key delete
keys = tt

migrated :
    store_platform_key browser env 5 iv (lit "C-1") (some 8) none 20 old_records ≡ ok new_records
unfolding keys
migrated = refl

abbrev pub first_record : StoredRecord ℕ
first_record = record (new_record (5 ∷ lit "pin")) { created_at = some 20 }

abbrev pub first_records : Records browser
first_records = (lit "C-1", first_record) ∷ []

abbrev renewed_records : Records browser
renewed_records = (lit "C-1", record first_record { key = some 9; updated_at = some 30 }) ∷ []

stored :
    store_platform_key browser env 5 iv (lit "C-1") (some 8) (some (lit "pin ")) 20 []
    ≡ ok first_records
unfolding keys
stored = refl

pub enrolled :
    enroll_platform_key browser env 5 iv (lit "C-1") (some 8) (some (lit "pin ")) 20 []
    ≡ ok first_records
unfolding keys
enrolled = refl

stored_again :
    store_platform_key browser env 6 iv (lit "C-1") (some 9) none 30 first_records
    ≡ ok renewed_records
unfolding keys
stored_again = refl

removed : remove_platform_key browser env (lit "C-1") first_records ≡ ok []
unfolding keys
removed = refl

id_given : is_empty (lit "C-1") ≡ false
unfolding keys
id_given = refl

secret_given : is_empty (lit "pin ") ≡ false
unfolding keys
secret_given = refl

pub pin_kept : units (trim (lit "pin ")) ≡ trim (lit "pin ")
unfolding keys
pin_kept = refl

old_pin_kept : units (trim (lit " pin ")) ≡ trim (lit " pin ")
unfolding keys
old_pin_kept = refl

old_plain : truthy (some (lit " pin ")) ≡ some (lit " pin ")
unfolding keys
old_plain = refl

old_found : get (lit "C-1") old_records ≡ some old_record
unfolding keys
old_found = refl

first_found : get (lit "C-1") first_records ≡ some first_record
unfolding keys
first_found = refl

no_plain : truthy none ≡ none
unfolding keys
no_plain = refl

pub iv-ne-nil : iv ≢ []
iv-ne-nil h = cc

store_platform_key-get_stored_device_secret_example :
    get_stored_device_secret browser env (lit "C-1") first_records ≡ ok (some (trim (lit "pin ")))
store_platform_key-get_stored_device_secret_example =
    store_platform_key-get_stored_device_secret browser env 5 iv (lit "C-1") (some 8) (lit "pin ")
      20 [] first_records secret_given pin_kept (omega arith) iv-ne-nil stored

other_id : text_eq (lit "C-1") (lit "C-2") ≡ false
unfolding text_eq lit
other_id = refl

store_platform_key-get_example :
    ((r : StoredRecord ℕ) × (get (lit "C-1") new_records ≡ some r)
      × (r.device_secret ≡ none)
      × (r.key ≡ some 8))
    × (get (lit "C-2") new_records ≡ get (lit "C-2") old_records)
store_platform_key-get_example =
    store_platform_key-get browser env 5 iv (lit "C-1") (lit "C-2") (some 8) none 20 old_records
      new_records other_id migrated

store_platform_key-migrates_example :
    get_stored_device_secret browser env (lit "C-1") new_records ≡ ok (some (trim (lit " pin ")))
store_platform_key-migrates_example =
    store_platform_key-migrates browser env 5 iv (lit "C-1") (some 8) (lit " pin ") 20 old_records
      new_records old_record old_found old_plain old_pin_kept (omega arith) iv-ne-nil migrated

store_platform_key-keeps_example :
    get_stored_device_secret browser env (lit "C-1") renewed_records
    ≡ get_stored_device_secret browser env (lit "C-1") first_records
store_platform_key-keeps_example =
    store_platform_key-keeps browser env 6 iv (lit "C-1") (some 9) 30 first_records renewed_records
      first_record first_found no_plain stored_again

abbrev pem_lines : Text
pem_lines = lit "\nQU\r\nI=\n"

body_read : without_space pem_lines ≡ lit "QUI="
unfolding keys without_space
body_read = refl

labelled : is_empty (lit "PRIVATE KEY") ≡ false
unfolding keys
labelled = refl

blank : IsBlank (lit "\n")
unfolding keys
blank = (refl, tt)

label_undashed : Lacks b'-' (lit "PRIVATE KEY")
unfolding keys
label_undashed = omega arith

body_undashed : Lacks b'-' pem_lines
unfolding keys
body_undashed = omega arith

body-IsBytes : IsBytes (lit "QUI=")
unfolding keys
body-IsBytes = omega arith

pem_body_to_array_buffer-armoured_example :
    pem_body_to_array_buffer browser type_error
      (lit "\n" ++ (armoured (lit "PRIVATE KEY") pem_lines ++ lit "\n"))
    ≡ ok (lit "QUI=")
pem_body_to_array_buffer-armoured_example =
    pem_body_to_array_buffer-armoured browser type_error (lit "\n") (lit "PRIVATE KEY") pem_lines
      (lit "\n") (lit "QUI=") blank blank labelled label_undashed body_undashed body-IsBytes
      body_read
