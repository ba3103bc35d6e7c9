-- ===== src/NetGuard/Dial.antt =====
-- netguard.go: `privateAddress` and `guardedDialContext`. An address is the bytes of a `net.IP`; its
-- predicates, `net.ParseCIDR` with `Contains`, the resolver and the dialer are in `Net`. Each
-- attempt is a call of the dialer, and the attempts are recorded in order.
use bitlab.Prelude.{
  Bool, true, false, ◌||◌, List, [], ◌∷◌, Option, none, some, Bytes, bytes, if◌then◌else◌, any,
}

pub record Net : Type 0 where
  pub is_loopback : Bytes → Bool
  pub is_private : Bytes → Bool
  pub is_link_local_unicast : Bytes → Bool
  pub is_link_local_multicast : Bytes → Bool
  pub is_unspecified : Bytes → Bool
  pub is_multicast : Bytes → Bool
  pub in_cidr : Bytes → Bytes → Bool
  pub split_host_port : Bytes → Option (Bytes × Bytes)
  pub lookup_ip_addr : Bytes → Option (List Bytes)
  pub connects : Bytes → Bytes → Bool

-- `reservedNets`.
abbrev pub reserved_nets : List Bytes
reserved_nets =
    bytes "0.0.0.0/8"
    ∷ bytes "100.64.0.0/10"
    ∷ bytes "192.0.0.0/24"
    ∷ bytes "192.0.2.0/24"
    ∷ bytes "198.18.0.0/15"
    ∷ bytes "198.51.100.0/24"
    ∷ bytes "203.0.113.0/24"
    ∷ bytes "240.0.0.0/4"
    ∷ bytes "2001:db8::/32"
    ∷ bytes "100::/64"
    ∷ []

-- The answer of the dialer.
pub data Dialed : Type 0 where
  connected : Bytes → Dialed
  by_name : Bytes → Dialed
  bad_address : Dialed
  lookup_failed : Dialed
  refused_private : Dialed
  all_failed : Dialed

module _ (n : Net) where
  -- `privateAddress`.
  unfoldable pub private_address : Bytes → Bool
  private_address ip =
      if n.is_loopback ip
        || (n.is_private ip
            || (n.is_link_local_unicast ip
                || (n.is_link_local_multicast ip || (n.is_unspecified ip || n.is_multicast ip))))
      then true
      else any (λ cidr. n.in_cidr cidr ip) reserved_nets

  -- What the end of the loop answers.
  abbrev pub none_left : Bool → Dialed
  none_left true = all_failed
  none_left false = refused_private

  -- A further attempt, before those that follow.
  abbrev pub after_attempt : Bytes → Dialed × List Bytes → Dialed × List Bytes
  after_attempt ip (d, tries) = (d, ip ∷ tries)

  -- The loop over the addresses, with `tried`; the second result lists the addresses dialed.
  unfoldable pub dial_each : Bytes → List Bytes → Bool → Dialed × List Bytes
  unfolding private_address
  dial_each port [] tried = (none_left tried, [])
  dial_each port (ip ∷ ips) tried =
      let skipped = dial_each port ips tried in
      let next = dial_each port ips true in
      if private_address ip
      then skipped
      else (if n.connects ip port then (connected ip, ip ∷ []) else after_attempt ip next)

  unfoldable pub dial_resolved : Bytes → Option (List Bytes) → Dialed × List Bytes
  unfolding dial_each
  dial_resolved port none = (lookup_failed, [])
  dial_resolved port (some ips) = dial_each port ips false

  -- The function that `guardedDialContext` returns.
  unfoldable pub guarded_dial : Bool → Bytes → Dialed × List Bytes
  unfolding dial_resolved
  guarded_dial allow_private addr = elim (n.split_host_port addr) [
    | none ↦ (bad_address, [])
    | some (host, port) ↦
        if allow_private then (by_name addr, []) else dial_resolved port (n.lookup_ip_addr host)
  ]
