-- ===== src/WireGuard/Config.antt =====
-- wireguard.go: the configuration, its keys and its endpoints. An address is its text. What the code
-- takes from `net`, `netip` and `encoding/base64` is in `Resolver`.
use bitlab.Prelude.{
  ℕ, ◌+◌, ◌/◌, ◌%◌, ◌==◌, Bool, ◌&&◌, ◌||◌, List, [], ◌∷◌, Option, none, some, Bytes, if◌then◌else◌,
  leb, ltb, length,
}
use bitlab.Prelude.Int.{ℤ}
use bitlab.Prelude.Trim.{trim_space}
use bitlab.Prelude.Search.{to_lower}

-- `WireGuardPeer`.
pub record Peer : Type 0 where
  pub public_key : Bytes
  pub preshared_key : Bytes
  pub endpoint : Bytes
  pub allowed_ips : List Bytes
  pub persistent_keepalive : ℤ

-- `WireGuardConfig`.
pub record Config : Type 0 where
  pub private_key : Bytes
  pub addresses : List Bytes
  pub dns : List Bytes
  pub mtu : ℤ
  pub listen_port : ℤ
  pub peers : List Peer

pub record Resolver : Type 0 where
  pub base64_decode : Bytes → Option Bytes
  pub parse_addr : Bytes → Option Bytes
  pub parse_prefix : Bytes → Option Bytes
  pub split_host_port : Bytes → Option (Bytes × Bytes)
  pub parse_ip : Bytes → Option Bytes
  pub lookup_ip : Bytes → Option (List Bytes)
  pub join_host_port : Bytes → Bytes → Bytes

-- The errors of `ParseWireGuardConfig`.
pub data ConfigError : Type 0 where
  unknown_section : Bytes → ConfigError
  bad_private_key : ConfigError
  bad_address : Bytes → ConfigError
  bad_public_key : ConfigError
  bad_preshared_key : ConfigError
  bad_endpoint : ConfigError
  unreadable : ConfigError
  no_private_key : ConfigError
  no_address : ConfigError

pub data Result {ℓ} (A : Type ℓ) : Type ℓ where
  ok : A → Result A
  err : ConfigError → Result A

infixl 5 ◌>>=◌
abbrev pub ◌>>=◌ {ℓ κ} : {A : Type ℓ} {B : Type κ} → Result A → (A → Result B) → Result B
ok a >>= f = f a
err e >>= f = err e

-- An absent value is an error.
abbrev pub need {ℓ} : {A : Type ℓ} → ConfigError → Option A → Result A
need e none = err e
need e (some a) = ok a

unfoldable pub is_hex : ℕ → Bool
is_hex b = (leb 48 b && leb b 57) || ((leb 65 b && leb b 70) || (leb 97 b && leb b 102))

unfoldable pub all_hex : Bytes → Bool
unfolding is_hex
all_hex [] = Bool.true
all_hex (b ∷ s) = is_hex b && all_hex s

unfoldable pub hex_digit : ℕ → ℕ
hex_digit n = if ltb n 10 then 48 + n else 87 + n

-- `hex.EncodeToString`.
unfoldable pub hex_encode : Bytes → Bytes
unfolding hex_digit
hex_encode [] = []
hex_encode (b ∷ s) = hex_digit (b / 16 % 16) ∷ hex_digit (b % 16) ∷ hex_encode s

module _ (r : Resolver) where
  -- The second half of `parseKey`.
  unfoldable pub decode_key : Bytes → Option Bytes
  unfolding hex_encode
  decode_key s = elim (r.base64_decode s) [
    | none ↦ none
    | some b ↦ if length b == 32 then some (hex_encode b) else none
  ]

  -- `parseKey`. Of 64 bytes, `hex.DecodeString` takes those that are all hexadecimal.
  unfoldable pub parse_key : Bytes → Option Bytes
  unfolding decode_key all_hex trim_space to_lower
  parse_key raw =
      let s = trim_space raw in
      if length s == 64 && all_hex s then some (to_lower s) else decode_key s

  -- What `resolveEndpoint` does with the addresses of a name.
  unfoldable pub first_address : Bytes → Option (List Bytes) → Option Bytes
  first_address port none = none
  first_address port (some []) = none
  first_address port (some (ip ∷ ips)) = some (r.join_host_port ip port)

  -- `resolveEndpoint`.
  unfoldable pub resolve_endpoint : Bytes → Option Bytes
  unfolding first_address trim_space
  resolve_endpoint ep = elim (r.split_host_port (trim_space ep)) [
    | none ↦ none
    | some (host, port) ↦ elim (r.parse_ip host) [
      | some ip ↦ some (r.join_host_port ip port)
      | none ↦ first_address port (r.lookup_ip host)
    ]
  ]
