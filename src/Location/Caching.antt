-- ===== src/Location/Caching.antt =====
-- frontend/src/utils/geolocation.js: the position is looked up once, and only printable text is sent.
use hybrid_quantum_cryptogra.Prelude.{
  ℕ, ◌≡◌, refl, Bool, true, false, [], ◌∷◌, All, filter_by, Bool-cases, inl, inr, Option, none,
  some,
}
use hybrid_quantum_cryptogra.Js.{Text, trim, trim_start, trim_end, keep_unit, is_space, is_empty}
use hybrid_quantum_cryptogra.Roles.{truthy}
use hybrid_quantum_cryptogra.Location.{
  Position, Headers, is_printable, sanitize_header_value, get_geo_headers,
}

-- Every later call gives the headers of the first one, whatever the service answers by then.
pub get_geo_headers-again :
    (normalize : Text → Text) (can_fetch can_fetch_later : Bool) (reply later : Option Position)
    (cached : Option Headers)
    → let (headers, kept) : Headers × Option Headers =
        get_geo_headers normalize can_fetch reply cached in
      get_geo_headers normalize can_fetch_later later kept ≡ (headers, some headers)
unfolding get_geo_headers
get_geo_headers-again normalize can_fetch can_fetch_later reply later (some headers) = refl
get_geo_headers-again normalize true can_fetch_later reply later none = refl
get_geo_headers-again normalize false can_fetch_later reply later none = refl

-- A text of printable characters.
abbrev pub IsPrintable : Text → Type 0
IsPrintable s = All (λ c. is_printable c ≡ true) s

filter_by-IsPrintable : (s : Text) → IsPrintable (filter_by is_printable s)
unfolding filter_by
filter_by-IsPrintable [] = tt
filter_by-IsPrintable (c ∷ s) = elim (Bool-cases (is_printable c)) [
  | inl printable ↦ rw (printable, filter_by) (printable, filter_by-IsPrintable s)
  | inr other ↦ rw (other, filter_by) (filter_by-IsPrintable s)
]

keep_unit-IsPrintable :
    (c : ℕ) (s : Text) → is_printable c ≡ true → IsPrintable s → IsPrintable (keep_unit c s)
unfolding keep_unit
keep_unit-IsPrintable c [] h hs = elim (Bool-cases (is_space c)) [
  | inl space ↦ rw space tt
  | inr kept ↦ rw kept (h, tt)
]
keep_unit-IsPrintable c (d ∷ s) h hs = (h, hs)

trim_end-IsPrintable : (s : Text) → IsPrintable s → IsPrintable (trim_end s)
unfolding trim_end
trim_end-IsPrintable [] h = tt
trim_end-IsPrintable (c ∷ s) (h, hs) =
    keep_unit-IsPrintable c (trim_end s) h (trim_end-IsPrintable s hs)

trim_start-IsPrintable : (s : Text) → IsPrintable s → IsPrintable (trim_start s)
unfolding trim_start
trim_start-IsPrintable [] h = tt
trim_start-IsPrintable (c ∷ s) (h, hs) = elim (Bool-cases (is_space c)) [
  | inl space ↦ rw space (trim_start-IsPrintable s hs)
  | inr kept ↦ rw kept (h, hs)
]

trim-IsPrintable : (s : Text) → IsPrintable s → IsPrintable (trim s)
unfolding trim
trim-IsPrintable s h = trim_end-IsPrintable (trim_start s) (trim_start-IsPrintable s h)

-- A header that may be sent: its value, where there is one, is printable and not empty.
abbrev pub IsSendable : Option Text → Type 0
IsSendable none = Unit
IsSendable (some value) = IsPrintable value × (is_empty value ≡ false)

truthy-IsSendable : (s : Text) → IsPrintable s → IsSendable (truthy (some s))
unfolding truthy
truthy-IsSendable s h = elim (Bool-cases (is_empty s)) [
  | inl empty ↦ rw empty tt
  | inr given ↦ rw given (h, given)
]

-- Whatever the service answers, and whatever the normal form does, a value is sent only if it is
-- printable ASCII and not empty.
pub sanitize_header_value-IsSendable :
    (normalize : Text → Text) (value : Option Text)
    → IsSendable (sanitize_header_value normalize value)
unfolding sanitize_header_value
sanitize_header_value-IsSendable normalize none = tt
sanitize_header_value-IsSendable normalize (some value) =
    truthy-IsSendable (trim (filter_by is_printable (normalize value))) (
      trim-IsPrintable (filter_by is_printable (normalize value))
        (filter_by-IsPrintable (normalize value)))
