-- ===== src/Tests/Places.antt =====
-- geolocation.js at concrete inputs.
use hybrid_quantum_cryptogra.Prelude.{◌≡◌, refl, true, none, some, [], ◌∷◌, ◌++◌, filter_by}
use hybrid_quantum_cryptogra.Js.{
  Text, lit, trim, trim_start, trim_end, keep_unit, is_space, is_empty,
}
use hybrid_quantum_cryptogra.Roles.{truthy}
use hybrid_quantum_cryptogra.Location.{
  Position, is_printable, sanitize_header_value, headers_of, get_geo_headers,
}

abbrev unchanged : Text → Text
unchanged s = s

abbrev paris : Position
paris = record {
  city = some (lit " Paris" ++ (10 ∷ []));
  country_name = some [];
  country = some (lit "FR");
  region = some (8364 ∷ []);
  timezone = none;
}

-- The name of the country is empty, and no unit of the region is printable.
looked_up_once : get_geo_headers unchanged true (some paris) none ≡ (
  (lit "X-Client-City", lit "Paris") ∷ (lit "X-Client-Country", lit "FR") ∷ [],
  some ((lit "X-Client-City", lit "Paris") ∷ (lit "X-Client-Country", lit "FR") ∷ []),
)
unfolding get_geo_headers headers_of sanitize_header_value filter_by is_printable lit truthy trim
    trim_start trim_end keep_unit is_space is_empty
looked_up_once = refl
