-- ===== src/Middleware/Origin.antt =====
-- main.go: `sameOrigin`, `hostAllowed`, `hostsEqual` and `envIntClamped`. `strings.EqualFold` and
-- `url.Parse`, of which the host and the scheme are read, are parameters.
use bitlab.Prelude.{
  ◌-◌, Bool, true, false, ◌&&◌, ◌||◌, [], ◌∷◌, Option, none, some, Bytes, bytes, bytes_eq,
  has_suffix, if◌then◌else◌, length, take,
}
use bitlab.Prelude.Int.{ℤ, ltb_ℤ}

-- `envIntClamped`, from what `envInt` gives.
unfoldable pub env_int_clamped : ℤ → ℤ → ℤ → ℤ
env_int_clamped n lo hi = if ltb_ℤ n lo then lo else (if ltb_ℤ hi n then hi else n)

-- A parsed URL.
pub record Url : Type 0 where
  pub host : Bytes
  pub scheme : Bytes

-- What the checks read of a request. `path` and `http_method` are those of the request line; a header
-- that is absent is empty.
pub record WebRequest : Type 0 where
  pub host : Bytes
  pub path : Bytes
  pub http_method : Bytes
  pub tls : Bool
  pub fetch_site : Bytes
  pub origin : Bytes
  pub content_type : Bytes

pub record Web : Type 0 where
  pub equal_fold : Bytes → Bytes → Bool
  pub parse_url : Bytes → Option Url

-- `strings.TrimSuffix`.
unfoldable pub trim_suffix : Bytes → Bytes → Bytes
unfolding has_suffix
trim_suffix s p = if has_suffix s p then take (length s - length p) s else s

-- The default port of a scheme.
unfoldable pub default_port : Bytes → Bytes
unfolding bytes_eq
default_port scheme =
    if bytes_eq scheme (bytes "https")
    then bytes "443"
    else (if bytes_eq scheme (bytes "http") then bytes "80" else [])

module _ (w : Web) where
  -- `hostsEqual`.
  unfoldable pub hosts_equal : Bytes → Bytes → Bytes → Bool
  unfolding default_port trim_suffix bytes_eq
  hosts_equal got want scheme =
      let port = default_port scheme in
      if w.equal_fold got want
      then true
      else (if bytes_eq port []
          then false
          else w.equal_fold (trim_suffix got (58 ∷ port)) (trim_suffix want (58 ∷ port)))

  -- The last check of `hostAllowed`.
  unfoldable pub host_matches : WebRequest → Option Url → Bool
  unfolding hosts_equal bytes_eq
  host_matches r none = true
  host_matches r (some b) = if bytes_eq b.host [] then true else hosts_equal r.host b.host b.scheme

  -- `hostAllowed`.
  unfoldable pub host_allowed : Bytes → WebRequest → Bool
  unfolding host_matches bytes_eq
  host_allowed base r =
      if bytes_eq r.path (bytes "/healthz") || bytes_eq r.path (bytes "/readyz")
      then true
      else (if bytes_eq base [] then true else host_matches r (w.parse_url base))

  -- The host and the scheme that an origin must have.
  unfoldable pub own_origin : Bytes → WebRequest → Url
  unfolding bytes_eq
  own_origin base r =
      let from_request : Url = record {
        host = r.host;
        scheme = if r.tls then bytes "https" else bytes "http";
      } in
      if bytes_eq base []
      then from_request
      else elim (w.parse_url base) [ none ↦ from_request | some b ↦ b ]

  -- `sameOrigin`.
  unfoldable pub same_origin : Bytes → WebRequest → Bytes → Bool
  unfolding own_origin bytes_eq
  same_origin base r origin = elim (w.parse_url origin) [
    | none ↦ false
    | some u ↦
        let own = own_origin base r in
        if bytes_eq u.host []
        then false
        else w.equal_fold u.host own.host && w.equal_fold u.scheme own.scheme
  ]
