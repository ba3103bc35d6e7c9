-- ===== src/NetGuard/Guarded.antt =====
-- netguard.go: where the guarded dialer connects.
use bitlab.Prelude.{
  ◌≡◌, refl, Bool, true, false, not, List, [], ◌∷◌, Option, none, some, inl, inr, Bytes,
  if◌then◌else◌, keep_if, Bool-cases,
}
use bitlab.NetGuard.Dial.{
  Net, Dialed, connected, refused_private, all_failed, private_address, dial_each, dial_resolved,
  guarded_dial,
}

-- The addresses in order up to the first that answers.
abbrev pub until_answer : (Bytes → Bool) → List Bytes → List Bytes
until_answer answers [] = []
until_answer answers (ip ∷ ips) =
    let rest = until_answer answers ips in if answers ip then ip ∷ [] else ip ∷ rest

-- The first address that answers.
abbrev pub first_answer : (Bytes → Bool) → List Bytes → Option Bytes
first_answer answers [] = none
first_answer answers (ip ∷ ips) =
    let rest = first_answer answers ips in if answers ip then some ip else rest

abbrev pub outcome_of : Bool → Option Bytes → Dialed
outcome_of tried (some ip) = connected ip
outcome_of true none = all_failed
outcome_of false none = refused_private

module _ (n : Net) where
  -- The public addresses of a name.
  abbrev pub public_of : List Bytes → List Bytes
  public_of ips = keep_if (λ ip. not (private_address n ip)) ips

  abbrev pub any_public : List Bytes → Bool
  any_public [] = false
  any_public (ip ∷ ips) = true

  abbrev tried_or : Bool → List Bytes → Bool
  tried_or true ips = true
  tried_or false ips = any_public ips

  dial_each-public_of :
      (port : Bytes) (ips : List Bytes) (tried : Bool)
      → dial_each n port ips tried ≡ (
        outcome_of
            (tried_or tried (public_of ips))
            (first_answer (λ ip. n.connects ip port) (public_of ips)),
        until_answer (λ ip. n.connects ip port) (public_of ips),
      )
  unfolding dial_each
  dial_each-public_of port [] true = refl
  dial_each-public_of port [] false = refl
  dial_each-public_of port (ip ∷ ips) tried = elim (Bool-cases (private_address n ip)) [
    | inl private ↦ rw private (dial_each-public_of port ips tried)
    | inr reachable ↦ elim (Bool-cases (n.connects ip port)) [
      | inl answered ↦ rw (reachable, answered) refl
      | inr silent ↦
          rw (reachable, silent, dial_each-public_of port ips true, met tried (public_of ips)) refl
    ]
  ]
    where
      met : (tried : Bool) (rest : List Bytes) → tried_or tried (ip ∷ rest) ≡ true
      met true rest = refl
      met false rest = refl

  -- Where private addresses are not allowed, and the name resolves: the guarded dialer dials the
  -- public addresses of the name in order, up to the first that answers, and no other; it connects
  -- to that one, refuses where the name has no public address, and fails where none answers.
  pub guarded_dial-public_of :
      (addr host port : Bytes) (ips : List Bytes)
      → n.split_host_port addr ≡ some (host, port)
      → n.lookup_ip_addr host ≡ some ips
      → guarded_dial n false addr ≡ (
        outcome_of
            (any_public (public_of ips))
            (first_answer (λ ip. n.connects ip port) (public_of ips)),
        until_answer (λ ip. n.connects ip port) (public_of ips),
      )
  unfolding guarded_dial dial_resolved
  guarded_dial-public_of addr host port ips split found =
      rw (split, guarded_dial, found) (dial_each-public_of port ips false)
