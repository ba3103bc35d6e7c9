-- ===== src/WireGuard/Kept.antt =====
-- The settings of `ParseWireGuardConfig` (wireguard.go).
use bitlab.Prelude.{
  inl, inr, List, [], ◌∷◌, Option, none, some, Bytes, bytes, bytes_eq, All, Bool-cases,
  Option-cases, arith,
}
use mathlib.Core.Path.{subst}
use bitlab.Prelude.Int.{pos, ltb_ℤ, leb_ℤ, ◌≤ℤ◌, ◌<ℤ◌}
use bitlab.Prelude.Members.{All-append, Whenever}
use bitlab.Prelude.Trim.{trim_space}
use bitlab.Prelude.Lines.{Lacks, All-trim_space}
use bitlab.WireGuard.Config.{
  Peer, Config, Resolver, need, parse_key, resolve_endpoint, first_address, bad_private_key,
  bad_public_key, bad_preshared_key, bad_endpoint,
}
use bitlab.WireGuard.Parse.{comma_parts, interface_line, peer_line, add_addresses}
use bitlab.WireGuard.Keys.{IsKey, parse_key-IsKey}
use bitlab.WireGuard.Sound.{
  IsLineSafe, IsSoundPeer, IsSoundConfig, Ensures, Ensures-bind, Ensures-need, Ensures-any,
  or_number_sound, comma_parts-Lacks,
}

module _ (r : Resolver) (safe : IsLineSafe r) where
  first_address-Lacks :
      (port : Bytes) (ips : Option (List Bytes))
      → Lacks 10 port
      → Whenever (All (Lacks 10)) ips
      → Whenever (Lacks 10) (first_address r port ips)
  unfolding first_address
  first_address-Lacks port none hp h = tt
  first_address-Lacks port (some []) hp h = tt
  first_address-Lacks port (some (ip ∷ ips)) hp h = safe.join ip port h.0 hp

  joined :
      (host port : Bytes) (ip : Option Bytes)
      → Lacks 10 port
      → Whenever (Lacks 10) ip
      → Whenever (Lacks 10) (elim ip as (λ o. Option Bytes) [
        | some i ↦ some (r.join_host_port i port)
        | none ↦ first_address r port (r.lookup_ip host)
      ])
  joined host port (some i) hp h = safe.join i port h hp
  joined host port none hp h = first_address-Lacks port (r.lookup_ip host) hp (safe.found host)

  resolve_endpoint-Lacks : (ep : Bytes) → Lacks 10 ep → Whenever (Lacks 10) (resolve_endpoint r ep)
  unfolding resolve_endpoint
  resolve_endpoint-Lacks ep h = elim (Option-cases (r.split_host_port (trim_space ep))) [
    | inl bad ↦ rw (bad, resolve_endpoint) tt
    | inr ((host, port), good) ↦
        rw (good, resolve_endpoint)
          (joined host port (r.parse_ip host)
            (subst (Whenever (λ (hp : Bytes × Bytes). Lacks 10 hp.1)) good
              (safe.split (trim_space ep) (All-trim_space _ ep h)))
            (safe.ip host))
  ]

  pub interface_line-IsSoundConfig :
      (key val : Bytes) (c : Config)
      → IsSoundConfig c
      → Ensures IsSoundConfig (interface_line r key val c)
  unfolding interface_line
  interface_line-IsSoundConfig key val c h = elim (Bool-cases (bytes_eq key (bytes "privatekey"))) [
    | inl e ↦ rw e (
        Ensures-bind IsKey IsSoundConfig (need bad_private_key (parse_key r val)) _
          (Ensures-need IsKey bad_private_key (parse_key r val) (parse_key-IsKey r val))
          (λ k hk. record {
            private = inr hk;
            unit = h.unit;
            port = h.port;
            all_peers = h.all_peers;
          }))
    | inr ne ↦ elim (Bool-cases (bytes_eq key (bytes "address"))) [
      | inl e ↦
          rw (ne, e)
            (Ensures-bind (λ a. Unit) IsSoundConfig (add_addresses r (comma_parts val) c.addresses)
              _ (Ensures-any (add_addresses r (comma_parts val) c.addresses))
              (λ a ha. record {
                private = h.private;
                unit = h.unit;
                port = h.port;
                all_peers = h.all_peers;
              }))
      | inr ne2 ↦ elim (Bool-cases (bytes_eq key (bytes "dns"))) [
        | inl e ↦
            rw (ne, ne2, e)
              (record {
                private = h.private;
                unit = h.unit;
                port = h.port;
                all_peers = h.all_peers;
              })
        | inr ne3 ↦ elim (Bool-cases (bytes_eq key (bytes "mtu"))) [
          | inl e ↦
              rw (ne, ne2, ne3, e)
                (record {
                  private = h.private;
                  unit =
                      or_number_sound (λ n. pos 0 <ℤ n) (ltb_ℤ (pos 0)) c.mtu val
                        (λ n w. ground arith) h.unit;
                  port = h.port;
                  all_peers = h.all_peers;
                })
          | inr ne4 ↦ elim (Bool-cases (bytes_eq key (bytes "listenport"))) [
            | inl e ↦
                rw (ne, ne2, ne3, ne4, e)
                  (record {
                    private = h.private;
                    unit = h.unit;
                    port =
                        or_number_sound (λ n. pos 0 ≤ℤ n) (ltb_ℤ (pos 0)) c.listen_port val
                          (λ n w. ground arith) h.port;
                    all_peers = h.all_peers;
                  })
            | inr ne5 ↦ rw (ne, ne2, ne3, ne4, ne5) h
          ]
        ]
      ]
    ]
  ]

  pub peer_line-IsSoundPeer :
      (key val : Bytes) (p : Peer)
      → Lacks 10 val
      → IsSoundPeer p
      → Ensures IsSoundPeer (peer_line r key val p)
  unfolding peer_line
  peer_line-IsSoundPeer key val p hv h = elim (Bool-cases (bytes_eq key (bytes "publickey"))) [
    | inl e ↦ rw e (
        Ensures-bind IsKey IsSoundPeer (need bad_public_key (parse_key r val)) _
          (Ensures-need IsKey bad_public_key (parse_key r val) (parse_key-IsKey r val))
          (λ k hk. record {
            public = inr hk;
            preshared = h.preshared;
            reached = h.reached;
            allowed = h.allowed;
            alive = h.alive;
          }))
    | inr ne ↦ elim (Bool-cases (bytes_eq key (bytes "presharedkey"))) [
      | inl e ↦
          rw (ne, e)
            (Ensures-bind IsKey IsSoundPeer (need bad_preshared_key (parse_key r val)) _
              (Ensures-need IsKey bad_preshared_key (parse_key r val) (parse_key-IsKey r val))
              (λ k hk. record {
                public = h.public;
                preshared = inr hk;
                reached = h.reached;
                allowed = h.allowed;
                alive = h.alive;
              }))
      | inr ne2 ↦ elim (Bool-cases (bytes_eq key (bytes "endpoint"))) [
        | inl e ↦
            rw (ne, ne2, e)
              (Ensures-bind (Lacks 10) IsSoundPeer (need bad_endpoint (resolve_endpoint r val)) _
                (Ensures-need (Lacks 10) bad_endpoint (resolve_endpoint r val)
                  (resolve_endpoint-Lacks val hv))
                (λ ep he. record {
                  public = h.public;
                  preshared = h.preshared;
                  reached = he;
                  allowed = h.allowed;
                  alive = h.alive;
                }))
        | inr ne3 ↦ elim (Bool-cases (bytes_eq key (bytes "allowedips"))) [
          | inl e ↦
              rw (ne, ne2, ne3, e)
                (record {
                  public = h.public;
                  preshared = h.preshared;
                  reached = h.reached;
                  allowed =
                      All-append (Lacks 10) p.allowed_ips (comma_parts val) h.allowed
                        (comma_parts-Lacks val hv);
                  alive = h.alive;
                })
          | inr ne4 ↦ elim (Bool-cases (bytes_eq key (bytes "persistentkeepalive"))) [
            | inl e ↦
                rw (ne, ne2, ne3, ne4, e)
                  (record {
                    public = h.public;
                    preshared = h.preshared;
                    reached = h.reached;
                    allowed = h.allowed;
                    alive =
                        or_number_sound (λ n. pos 0 ≤ℤ n) (leb_ℤ (pos 0)) p.persistent_keepalive val
                          (λ n w. ground arith) h.alive;
                  })
            | inr ne5 ↦ rw (ne, ne2, ne3, ne4, ne5) h
          ]
        ]
      ]
    ]
  ]
