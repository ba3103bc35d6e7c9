-- ===== src/Middleware/Passed.antt =====
-- main.go: which requests reach a handler.
use bitlab.Prelude.{
  ℕ, ◌≡◌, refl, sym, ◌∙◌, inl, inr, ◌≢◌, ◌⊎◌, true, false, [], Bytes, bytes, bytes_eq, bytes_eq_iff,
  has_prefix, Bool-cases,
}
use mathlib.Core.Bool.{false≢true}
use bitlab.Middleware.Origin.{WebRequest, Web, host_allowed, same_origin}
use bitlab.Middleware.Gate.{
  refused, no_content, passed, is_mutating, is_cross_site, lacks_json, is_foreign, check_mutation,
  gate,
}
use bitlab.Middleware.Own.{IsOwn, IsAtHome, not_equal, host_allowed-IsServed, same_origin-IsAtHome}

module _ (w : Web) (base : Bytes) (r : WebRequest) where
  not_cross_site :
      is_cross_site r ≡ false
      → (r.fetch_site ≡ []) ⊎ ((r.fetch_site ≡ bytes "same-origin") ⊎ (r.fetch_site ≡ bytes "none"))
  unfolding is_cross_site
  not_cross_site h = elim (Bool-cases (bytes_eq r.fetch_site [])) [
    | inl absent ↦ inl ((bytes_eq_iff _ _).0 absent)
    | inr there ↦ elim (Bool-cases (bytes_eq r.fetch_site (bytes "same-origin"))) [
      | inl same ↦ inr (inl ((bytes_eq_iff _ _).0 same))
      | inr other ↦ elim (Bool-cases (bytes_eq r.fetch_site (bytes "none"))) [
        | inl typed ↦ inr (inr ((bytes_eq_iff _ _).0 typed))
        | inr cross ↦ absurd (false≢true (sym h ∙ rw (there, other, cross) refl))
      ]
    ]
  ]

  not_foreign : is_foreign w base r ≡ false → (r.origin ≡ []) ⊎ IsAtHome w base r
  unfolding is_foreign
  not_foreign h = elim (Bool-cases (bytes_eq r.origin [])) [
    | inl absent ↦ inl ((bytes_eq_iff _ _).0 absent)
    | inr there ↦ elim (Bool-cases (same_origin w base r r.origin)) [
      | inl same ↦ inr (same_origin-IsAtHome w base r same)
      | inr other ↦ absurd (false≢true (sym h ∙ rw (there, other) refl))
    ]
  ]

  has_json :
      lacks_json r ≡ false
      → (r.http_method ≢ bytes "POST")
        ⊎ ((has_prefix r.path (bytes "/admin/api/") ≡ false)
            ⊎ (has_prefix r.content_type (bytes "application/json") ≡ true))
  unfolding lacks_json
  has_json h = elim (Bool-cases (bytes_eq r.http_method (bytes "POST"))) [
    | inr other ↦ inl (not_equal w base r _ _ other)
    | inl post ↦ elim (Bool-cases (has_prefix r.path (bytes "/admin/api/"))) [
      | inr elsewhere ↦ inr (inl elsewhere)
      | inl admin ↦ elim (Bool-cases (has_prefix r.content_type (bytes "application/json"))) [
        | inl json ↦ inr (inr json)
        | inr form ↦ absurd (false≢true (sym h ∙ rw (post, admin, form) refl))
      ]
    ]
  ]

  not_refused : (n : ℕ) → refused n ≢ passed
  not_refused n h = cc

  not_empty : no_content ≢ passed
  not_empty h = cc

  check_mutation-IsOwn :
      host_allowed w base r ≡ true → check_mutation w base r ≡ passed → IsOwn w base r
  unfolding check_mutation
  check_mutation-IsOwn host h = elim (Bool-cases (is_cross_site r)) [
    | inl cross ↦ absurd (not_refused 403 (sym (rw cross refl) ∙ h))
    | inr site ↦ elim (Bool-cases (is_foreign w base r)) [
      | inl foreign_one ↦ absurd (not_refused 403 (sym (rw (site, foreign_one) refl) ∙ h))
      | inr own ↦ elim (Bool-cases (lacks_json r)) [
        | inl form ↦ absurd (not_refused 415 (sym (rw (site, own, form) refl) ∙ h))
        | inr json ↦ record {
          served = host_allowed-IsServed w base r host;
          site = not_cross_site site;
          origin = not_foreign own;
          json = has_json json;
        }
      ]
    ]
  ]

  gate_checked :
      host_allowed w base r ≡ true
      → is_mutating r.http_method ≡ true
      → bytes_eq r.http_method (bytes "OPTIONS") ≡ false
      → (gate w base r).0 ≡ check_mutation w base r
  unfolding gate
  gate_checked host mutating other = rw (host, other, mutating) refl

  mutating_one :
      (r.http_method ≡ bytes "POST")
        ⊎ ((r.http_method ≡ bytes "PUT")
            ⊎ ((r.http_method ≡ bytes "PATCH") ⊎ (r.http_method ≡ bytes "DELETE")))
      → is_mutating r.http_method ≡ true
  unfolding is_mutating bytes_eq
  mutating_one (inl e) = rw e refl
  mutating_one (inr (inl e)) = rw e refl
  mutating_one (inr (inr (inl e))) = rw e refl
  mutating_one (inr (inr (inr e))) = rw e refl

  -- A POST, PUT, PATCH or DELETE reaches a handler only if: it asks for /healthz or /readyz, or is
  -- addressed to the host of the base URL, up to the default port of its scheme, where there is a base
  -- URL that parses and has a host; its Sec-Fetch-Site is absent, same-origin or none; its Origin is
  -- absent, or is a URL with the host and the scheme of the base URL, or of the request where no base
  -- URL parses; and it is JSON where it is posted to the admin API.
  pub gate-IsOwn :
      (r.http_method ≡ bytes "POST")
        ⊎ ((r.http_method ≡ bytes "PUT")
            ⊎ ((r.http_method ≡ bytes "PATCH") ⊎ (r.http_method ≡ bytes "DELETE")))
      → (gate w base r).0 ≡ passed
      → IsOwn w base r
  unfolding gate
  gate-IsOwn mutating h = elim (Bool-cases (host_allowed w base r)) [
    | inr elsewhere ↦ absurd (not_refused 403 (sym (rw elsewhere refl) ∙ h))
    | inl host ↦ elim (Bool-cases (bytes_eq r.http_method (bytes "OPTIONS"))) [
      | inl options ↦ absurd (not_empty (sym (rw (host, options) refl) ∙ h))
      | inr other ↦
          check_mutation-IsOwn host (sym (gate_checked host (mutating_one mutating) other) ∙ h)
    ]
  ]
