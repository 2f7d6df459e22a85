-- ===== src/Location.antt =====
-- frontend/src/utils/geolocation.js: the headers that tell the server where a client is.
pub mod Caching
use hybrid_quantum_cryptogra.Prelude.{
  ℕ, Bool, true, false, ◌&&◌, leb, Option, none, some, List, [], ◌∷◌, ◌++◌, filter_by,
}
use hybrid_quantum_cryptogra.Js.{Text, lit, trim}
use hybrid_quantum_cryptogra.Roles.{truthy}

-- What the service answers of a position; a part that is missing or `null` is `none`.
pub record Position : Type 0 where
  pub city : Option Text
  pub country_name : Option Text
  pub country : Option Text
  pub region : Option Text
  pub timezone : Option Text

abbrev pub Headers : Type 0
Headers = List (Text × Text)

-- The units from the space to the tilde.
unfoldable pub is_printable : ℕ → Bool
is_printable c = leb 32 c && leb c 126

-- `a || b`, whose value is only read as a condition or sanitized.
or_else_text : Option Text → Option Text → Option Text
or_else_text none second = second
or_else_text (some s) second = some s

header : Text → Option Text → Headers
header name none = []
header name (some value) = (name, value) ∷ []

-- `normalize` is the normal form NFKD.
module _ (normalize : Text → Text) where
  unfoldable pub sanitize_header_value : Option Text → Option Text
  sanitize_header_value none = none
  sanitize_header_value (some value) =
      truthy (some (trim (filter_by is_printable (normalize value))))

  unfoldable pub headers_of : Position → Headers
  unfolding or_else_text header
  headers_of position =
      header (lit "X-Client-City") (sanitize_header_value position.city)
      ++ header (lit "X-Client-Country")
          (sanitize_header_value (or_else_text (truthy position.country_name) position.country))
      ++ header (lit "X-Client-Region") (sanitize_header_value position.region)
      ++ header (lit "X-Client-Timezone") (sanitize_header_value position.timezone)

  -- Without an answer: the request, its status or its content failed.
  looked_up : Option Position → Headers
  looked_up none = []
  looked_up (some position) = headers_of position

  -- The headers and the new `cachedGeoHeaders`; `can_fetch` tells whether the browser has `fetch`.
  unfoldable pub get_geo_headers :
      (can_fetch : Bool) → Option Position → (cached : Option Headers) → Headers × Option Headers
  unfolding looked_up
  get_geo_headers can_fetch reply (some headers) = (headers, some headers)
  get_geo_headers false reply none = ([], some [])
  get_geo_headers true reply none = (looked_up reply, some (looked_up reply))
