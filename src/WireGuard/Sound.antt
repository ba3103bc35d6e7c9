-- ===== src/WireGuard/Sound.antt =====
-- What the loop of `ParseWireGuardConfig` keeps (wireguard.go).
use bitlab.Prelude.{
  ◌≡◌, refl, ◌⊎◌, inl, inr, Bool, true, List, [], ◌∷◌, Option, none, some, Bytes, bytes_eq, All,
  Bool-cases, Option-cases, arith,
}
use bitlab.Prelude.Int.{ℤ, pos, ◌≤ℤ◌, ◌<ℤ◌}
use bitlab.Prelude.Members.{All-append, Whenever}
use bitlab.Prelude.Trim.{trim_space}
use bitlab.Prelude.Search.{split_at}
use bitlab.Prelude.Decimal.{parse_int}
use bitlab.Prelude.Lines.{Lacks, All-trim_space, All-split_at}
use bitlab.WireGuard.Config.{Peer, Config, Resolver, ConfigError, Result, ok, err, ◌>>=◌, need}
use bitlab.WireGuard.Parse.{
  new_peer, new_config, Parsing, keep_parts, comma_parts, or_number, add_peer,
}
use bitlab.WireGuard.Keys.{IsKey}

-- What the code relies on of the resolver: no text that it gives has a newline, where the text that
-- it is given has none.
pub record IsLineSafe (r : Resolver) : Type 0 where
  pub split :
      (s : Bytes)
      → Lacks 10 s
      → Whenever (λ (hp : Bytes × Bytes). Lacks 10 hp.1) (r.split_host_port s)
  pub ip : (host : Bytes) → Whenever (Lacks 10) (r.parse_ip host)
  pub found : (host : Bytes) → Whenever (All (Lacks 10)) (r.lookup_ip host)
  pub join :
      (host port : Bytes) → Lacks 10 host → Lacks 10 port → Lacks 10 (r.join_host_port host port)

abbrev pub IsKeyOrEmpty : Bytes → Type 0
IsKeyOrEmpty k = (k ≡ []) ⊎ IsKey k

pub record IsSoundPeer (p : Peer) : Type 0 where
  pub public : IsKeyOrEmpty p.public_key
  pub preshared : IsKeyOrEmpty p.preshared_key
  pub reached : Lacks 10 p.endpoint
  pub allowed : All (Lacks 10) p.allowed_ips
  pub alive : pos 0 ≤ℤ p.persistent_keepalive

pub record IsSoundConfig (c : Config) : Type 0 where
  pub private : IsKeyOrEmpty c.private_key
  pub unit : pos 0 <ℤ c.mtu
  pub port : pos 0 ≤ℤ c.listen_port
  pub all_peers : All IsSoundPeer c.peers

pub record IsSound (s : Parsing) : Type 0 where
  pub sound_config : IsSoundConfig s.config
  pub sound_peer : Whenever IsSoundPeer s.peer

-- The property holds of a result that is no error.
abbrev pub Ensures {ℓ} : {A : Type ℓ} → (A → Type 0) → Result A → Type 0
Ensures P (ok a) = P a
Ensures P (err e) = Unit

pub Ensures-bind {ℓ κ} :
    {A : Type ℓ} {B : Type κ} (P : A → Type 0) (Q : B → Type 0) (m : Result A) (f : A → Result B)
    → Ensures P m
    → ((a : A) → P a → Ensures Q (f a))
    → Ensures Q (m >>= f)
Ensures-bind P Q (ok a) f h k = k a h
Ensures-bind P Q (err e) f h k = tt

pub Ensures-need :
    (P : Bytes → Type 0) (e : ConfigError) (o : Option Bytes) → Whenever P o → Ensures P (need e o)
Ensures-need P e none h = tt
Ensures-need P e (some a) h = h

-- Every value, where nothing is known of it.
pub Ensures-any {ℓ} : {A : Type ℓ} (m : Result A) → Ensures (λ a. Unit) m
Ensures-any (ok a) = tt
Ensures-any (err e) = tt

pub new_peer-IsSoundPeer : IsSoundPeer new_peer
new_peer-IsSoundPeer = record {
  public = inl refl;
  preshared = inl refl;
  reached = tt;
  allowed = tt;
  alive = omega arith;
}

pub new_config-IsSoundConfig : IsSoundConfig new_config
new_config-IsSoundConfig = record {
  private = inl refl;
  unit = omega arith;
  port = omega arith;
  all_peers = tt;
}

pub or_number_sound :
    (P : ℤ → Type 0) (wanted : ℤ → Bool) (old : ℤ) (val : Bytes)
    → ((n : ℤ) → wanted n ≡ true → P n)
    → P old
    → P (or_number wanted old val)
unfolding or_number
or_number_sound P wanted old val fits h = elim (Option-cases (parse_int val)) [
  | inl bad ↦ rw (bad, or_number) h
  | inr (n, good) ↦ elim (Bool-cases (wanted n)) [
    | inl yes_wanted ↦ rw (good, or_number, yes_wanted) (fits n yes_wanted)
    | inr other ↦ rw (good, or_number, other) h
  ]
]

keep_parts-Lacks : (parts : List Bytes) → All (Lacks 10) parts → All (Lacks 10) (keep_parts parts)
unfolding keep_parts
keep_parts-Lacks [] h = tt
keep_parts-Lacks (part ∷ parts) h = elim (Bool-cases (bytes_eq (trim_space part) [])) [
  | inl blank ↦ rw blank (keep_parts-Lacks parts h.1)
  | inr text ↦ rw text (All-trim_space _ part h.0, keep_parts-Lacks parts h.1)
]

pub comma_parts-Lacks : (val : Bytes) → Lacks 10 val → All (Lacks 10) (comma_parts val)
unfolding comma_parts
comma_parts-Lacks val h = keep_parts-Lacks (split_at 44 val) (All-split_at _ 44 val h)

pub add_peer-IsSoundConfig :
    (p : Option Peer) (c : Config)
    → Whenever IsSoundPeer p
    → IsSoundConfig c
    → IsSoundConfig (add_peer p c)
unfolding add_peer
add_peer-IsSoundConfig none c hp h = h
add_peer-IsSoundConfig (some p) c hp h = record {
  private = h.private;
  unit = h.unit;
  port = h.port;
  all_peers = All-append IsSoundPeer c.peers (p ∷ []) h.all_peers (hp, tt);
}
