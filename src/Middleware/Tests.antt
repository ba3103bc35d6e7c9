-- ===== src/Middleware/Tests.antt =====
-- Requests before the middleware, and the properties there.
use bitlab.Prelude.{
  ◌≡◌, refl, inl, true, false, some, Bytes, bytes, bytes_eq, has_prefix, has_suffix,
}
use bitlab.Prelude.Int.{pos, negsuc}
use bitlab.Middleware.Origin.{
  WebRequest, Web, env_int_clamped, trim_suffix, default_port, hosts_equal, host_matches,
  host_allowed, own_origin, same_origin,
}
use bitlab.Middleware.Gate.{
  refused, passed, cors_headers, hsts_headers, is_mutating, is_cross_site, lacks_json, is_foreign,
  check_mutation, gate,
}
use bitlab.Middleware.Own.{IsOwn}
use bitlab.Middleware.Passed.{gate-IsOwn}

program : Unit {0}
unfolding gate check_mutation is_foreign lacks_json is_cross_site is_mutating hsts_headers
    cors_headers same_origin own_origin host_allowed host_matches hosts_equal default_port
    trim_suffix bytes_eq has_prefix has_suffix env_int_clamped
program = tt

-- Two URLs are known: that of the site, and another.
abbrev small_web : Web
small_web = record {
  equal_fold = bytes_eq;
  parse_url = λ s. elim (bytes_eq s (bytes "https://hub.example")) [
    | true ↦ some (record { host = bytes "hub.example"; scheme = bytes "https" })
    | false ↦ some (record { host = bytes "evil.example"; scheme = bytes "https" })
  ];
}

abbrev site : Bytes
site = bytes "https://hub.example"

abbrev save : WebRequest
save = record {
  host = bytes "hub.example:443";
  path = bytes "/admin/api/keys";
  http_method = bytes "POST";
  tls = false;
  fetch_site = bytes "same-origin";
  origin = site;
  content_type = bytes "application/json";
}

passes_save : (gate small_web site save).0 ≡ passed
unfolding program
passes_save = refl

refuses_form :
    (gate small_web site (record save { content_type = bytes "text/plain" })).0 ≡ refused 415
unfolding program
refuses_form = refl

refuses_other_origin :
    (gate small_web site (record save { origin = bytes "https://evil.example" })).0 ≡ refused 403
unfolding program
refuses_other_origin = refl

clamps : env_int_clamped (negsuc 4) (pos 0) (pos 10) ≡ pos 0
unfolding program
clamps = refl

gate-IsOwn_example : IsOwn small_web site save
gate-IsOwn_example = gate-IsOwn small_web site save (inl refl) passes_save
