-- ===== src/Middleware/Gate.antt =====
-- main.go: `middleware`.
use bitlab.Prelude.{
  ℕ, Bool, ◌&&◌, ◌||◌, not, List, [], ◌∷◌, ◌++◌, Bytes, bytes, bytes_eq, has_prefix, if◌then◌else◌,
}
use bitlab.Middleware.Origin.{WebRequest, Web, host_allowed, same_origin}

-- What becomes of a request: an error with its code, the empty answer 204, or the next handler.
pub data GateAnswer : Type 0 where
  refused : ℕ → GateAnswer
  no_content : GateAnswer
  passed : GateAnswer

abbrev pub Headers : Type 0
Headers = List (Bytes × Bytes)

-- The headers of the addon's surface.
unfoldable pub cors_headers : Bytes → Headers
unfolding has_prefix
cors_headers path =
    if has_prefix path (bytes "/k/")
    then (bytes "Access-Control-Allow-Origin", bytes "*")
      ∷ (bytes "Access-Control-Allow-Headers", bytes "Content-Type, Range")
      ∷ (bytes "Access-Control-Allow-Methods", bytes "GET, HEAD, OPTIONS")
      ∷ (
        bytes "Access-Control-Expose-Headers",
        bytes "Content-Length, Content-Range, Accept-Ranges",
      )
      ∷ []
    else []

abbrev pub fixed_headers : Headers
fixed_headers =
    (bytes "X-Content-Type-Options", bytes "nosniff")
    ∷ (bytes "Referrer-Policy", bytes "no-referrer")
    ∷ (bytes "X-Frame-Options", bytes "DENY")
    ∷ (bytes "Cross-Origin-Opener-Policy", bytes "same-origin")
    ∷ (bytes "Permissions-Policy", bytes "camera=(), microphone=(), geolocation=()")
    ∷ []

unfoldable pub hsts_headers : Bytes → Headers
unfolding has_prefix bytes_eq
hsts_headers base =
    if not (bytes_eq base []) && has_prefix base (bytes "https://")
    then (bytes "Strict-Transport-Security", bytes "max-age=31536000; includeSubDomains") ∷ []
    else []

unfoldable pub is_mutating : Bytes → Bool
unfolding bytes_eq
is_mutating m =
    bytes_eq m (bytes "POST")
    || (bytes_eq m (bytes "PUT") || (bytes_eq m (bytes "PATCH") || bytes_eq m (bytes "DELETE")))

-- `Sec-Fetch-Site` names another site.
unfoldable pub is_cross_site : WebRequest → Bool
unfolding bytes_eq
is_cross_site r =
    not (bytes_eq r.fetch_site [])
    && (not (bytes_eq r.fetch_site (bytes "same-origin"))
        && not (bytes_eq r.fetch_site (bytes "none")))

-- A form that is posted to the admin API without being JSON.
unfoldable pub lacks_json : WebRequest → Bool
unfolding bytes_eq has_prefix
lacks_json r =
    bytes_eq r.http_method (bytes "POST")
    && (has_prefix r.path (bytes "/admin/api/")
        && not (has_prefix r.content_type (bytes "application/json")))

module _ (w : Web) (base : Bytes) where
  unfoldable pub is_foreign : WebRequest → Bool
  unfolding same_origin bytes_eq
  is_foreign r = not (bytes_eq r.origin []) && not (same_origin w base r r.origin)

  -- The checks of a mutating request.
  unfoldable pub check_mutation : WebRequest → GateAnswer
  unfolding is_cross_site is_foreign lacks_json
  check_mutation r =
      if is_cross_site r
      then refused 403
      else (if is_foreign r then refused 403 else (if lacks_json r then refused 415 else passed))

  -- `middleware`, up to the call of the next handler, with the headers that it sets.
  unfoldable pub gate : WebRequest → GateAnswer × Headers
  unfolding host_allowed check_mutation is_mutating cors_headers hsts_headers bytes_eq
  gate r =
      let headers = cors_headers r.path ++ (fixed_headers ++ hsts_headers base) in
      if not (host_allowed w base r)
      then (refused 403, [])
      else (if bytes_eq r.http_method (bytes "OPTIONS")
          then (no_content, headers)
          else (if is_mutating r.http_method
              then (check_mutation r, headers)
              else (passed, headers)))
