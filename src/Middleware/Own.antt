-- ===== src/Middleware/Own.antt =====
-- main.go: what `sameOrigin` and `hostAllowed` accept.
use bitlab.Prelude.{
  ◌≡◌, refl, sym, ◌∙◌, inl, inr, ◌≢◌, ◌⊎◌, true, false, [], none, some, Option-cases, Bytes, bytes,
  bytes_eq, bytes_eq_iff, has_prefix, if◌then◌else◌, Bool-cases, &&_true,
}
use mathlib.Core.Bool.{false≢true}
use bitlab.Middleware.Origin.{
  Url, WebRequest, Web, trim_suffix, default_port, hosts_equal, host_matches, host_allowed,
  own_origin, same_origin,
}

-- The path of a probe.
abbrev pub IsProbe : WebRequest → Type 0
IsProbe r = (r.path ≡ bytes "/healthz") ⊎ (r.path ≡ bytes "/readyz")

module _ (w : Web) (base : Bytes) (r : WebRequest) where
  -- The base URL is configured, and this is what it says.
  pub record IsBase (b : Url) : Type 0 where
    pub configured : base ≢ []
    pub parsed : w.parse_url base ≡ some b

  -- There is no base URL, or it is not one.
  abbrev pub LacksBase : Type 0
  LacksBase = (base ≡ []) ⊎ (w.parse_url base ≡ none)

  -- Two hosts are the same, or are where the default port of the scheme is left out.
  abbrev pub SameHost : Bytes → Bytes → Bytes → Type 0
  SameHost got want scheme =
      (w.equal_fold got want ≡ true)
      ⊎ ((port : Bytes) × (((scheme ≡ bytes "https") × (port ≡ bytes ":443"))
            ⊎ ((scheme ≡ bytes "http") × (port ≡ bytes ":80")))
          × (w.equal_fold (trim_suffix got port) (trim_suffix want port) ≡ true))

  -- The host of the base URL, where there is one.
  abbrev pub IsServed : Type 0
  IsServed = LacksBase ⊎ ((b : Url) × IsBase b × ((b.host ≡ []) ⊎ SameHost r.host b.host b.scheme))

  -- The origin of this site: that of the base URL, and else that of the request.
  abbrev pub IsHome : Url → Type 0
  IsHome own =
      IsBase own
      ⊎ (LacksBase
          × (own.host ≡ r.host)
          × (own.scheme ≡ (if r.tls then bytes "https" else bytes "http")))

  -- The origin that the request names is that of this site.
  pub record IsAtHome : Type 0 where
    pub named : Url
    pub own : Url
    pub parsed : w.parse_url r.origin ≡ some named
    pub some_host : named.host ≢ []
    pub home : IsHome own
    pub same_host : w.equal_fold named.host own.host ≡ true
    pub same_scheme : w.equal_fold named.scheme own.scheme ≡ true

  -- A request that a page of another site cannot make.
  pub record IsOwn : Type 0 where
    pub served : IsProbe r ⊎ IsServed
    pub site :
        (r.fetch_site ≡ []) ⊎ ((r.fetch_site ≡ bytes "same-origin") ⊎ (r.fetch_site ≡ bytes "none"))
    pub origin : (r.origin ≡ []) ⊎ IsAtHome
    pub json :
        (r.http_method ≢ bytes "POST")
        ⊎ ((has_prefix r.path (bytes "/admin/api/") ≡ false)
            ⊎ (has_prefix r.content_type (bytes "application/json") ≡ true))

  pub not_equal : (xs ys : Bytes) → bytes_eq xs ys ≡ false → xs ≢ ys
  not_equal xs ys h e = false≢true (sym h ∙ (bytes_eq_iff xs ys).1 e)

  hosts_equal-SameHost :
      (got want scheme : Bytes) → hosts_equal w got want scheme ≡ true → SameHost got want scheme
  unfolding hosts_equal default_port
  hosts_equal-SameHost got want scheme h = elim (Bool-cases (w.equal_fold got want)) [
    | inl same ↦ inl same
    | inr other ↦ elim (Bool-cases (bytes_eq scheme (bytes "https"))) [
      | inl https ↦
          inr
            (bytes ":443", inl ((bytes_eq_iff _ _).0 https, refl), sym (rw (other, https) refl) ∙ h)
      | inr not_https ↦ elim (Bool-cases (bytes_eq scheme (bytes "http"))) [
        | inl http ↦ inr (
          bytes ":80",
          inr ((bytes_eq_iff _ _).0 http, refl),
          sym (rw (other, not_https, http) refl) ∙ h,
        )
        | inr not_http ↦ absurd (false≢true (sym (rw (other, not_https, not_http) refl) ∙ h))
      ]
    ]
  ]

  pub host_allowed-IsServed : host_allowed w base r ≡ true → IsProbe r ⊎ IsServed
  unfolding host_allowed host_matches
  host_allowed-IsServed h = elim (Bool-cases (bytes_eq r.path (bytes "/healthz"))) [
    | inl health ↦ inl (inl ((bytes_eq_iff _ _).0 health))
    | inr not_health ↦ elim (Bool-cases (bytes_eq r.path (bytes "/readyz"))) [
      | inl ready ↦ inl (inr ((bytes_eq_iff _ _).0 ready))
      | inr not_ready ↦ inr (elim (Bool-cases (bytes_eq base [])) [
        | inl unset ↦ inl (inl ((bytes_eq_iff _ _).0 unset))
        | inr set ↦ elim (Option-cases (w.parse_url base)) [
          | inl bad ↦ inl (inr bad)
          | inr (b, good) ↦ inr (
            b,
            record { configured = not_equal base [] set; parsed = good },
            elim (Bool-cases (bytes_eq b.host [])) [
              | inl nowhere ↦ inl ((bytes_eq_iff _ _).0 nowhere)
              | inr somewhere ↦ inr (
                  hosts_equal-SameHost r.host b.host b.scheme
                    (sym (rw (not_health, not_ready, set, good, somewhere) refl) ∙ h))
            ],
          )
        ]
      ])
    ]
  ]

  own_origin-IsHome : IsHome (own_origin w base r)
  unfolding own_origin
  own_origin-IsHome = elim (Bool-cases (bytes_eq base [])) [
    | inl unset ↦
        inr (
          inl ((bytes_eq_iff _ _).0 unset),
          rw (unset, own_origin) refl,
          rw (unset, own_origin) refl,
        )
    | inr set ↦ elim (Option-cases (w.parse_url base)) [
      | inl bad ↦ inr (inr bad, rw (set, bad, own_origin) refl, rw (set, bad, own_origin) refl)
      | inr (b, good) ↦
          inl (record {
            configured = not_equal base [] set;
            parsed = rw (set, good, own_origin) refl;
          })
    ]
  ]

  pub same_origin-IsAtHome : same_origin w base r r.origin ≡ true → IsAtHome
  unfolding same_origin
  same_origin-IsAtHome h = elim (Option-cases (w.parse_url r.origin)) [
    | inl bad ↦ absurd (false≢true (sym (rw (bad, same_origin) refl) ∙ h))
    | inr (u, good) ↦ elim (Bool-cases (bytes_eq u.host [])) [
      | inl nowhere ↦ absurd (false≢true (sym (rw (good, same_origin, nowhere) refl) ∙ h))
      | inr somewhere ↦
          let own = own_origin w base r in
          let (host, scheme) =
            &&_true (w.equal_fold u.host own.host) (w.equal_fold u.scheme own.scheme)
              (sym (rw (good, same_origin, somewhere) refl) ∙ h) in
          record {
            named = u;
            own = own;
            parsed = good;
            some_host = not_equal u.host [] somewhere;
            home = own_origin-IsHome;
            same_host = host;
            same_scheme = scheme;
          }
    ]
  ]
