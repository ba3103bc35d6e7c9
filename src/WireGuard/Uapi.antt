-- ===== src/WireGuard/Uapi.antt =====
-- wireguard.go: `ToUAPI`, and a reader of the text that it gives.
use bitlab.Prelude.{
  suc, ◌==◌, List, [], ◌∷◌, ◌++◌, map, none, some, Bytes, bytes, bytes_eq, if◌then◌else◌, take,
  drop,
}
use bitlab.Prelude.Int.{ℤ, pos, ltb_ℤ}
use bitlab.Prelude.Search.{index_where, split_at}
use bitlab.Prelude.Decimal.{show_int}
use bitlab.WireGuard.Config.{Peer, Config}

-- A line `key=val`, before the rest of the text.
unfoldable pub field : Bytes → Bytes → Bytes → Bytes
field key val rest = key ++ 61 ∷ (val ++ 10 ∷ rest)

-- A line for a text that is not empty.
unfoldable pub text_field : Bytes → Bytes → Bytes → Bytes
unfolding field bytes_eq
text_field key val rest = if bytes_eq val [] then rest else field key val rest

-- A line for a number above zero.
unfoldable pub number_field : Bytes → ℤ → Bytes → Bytes
unfolding field show_int
number_field key n rest = if ltb_ℤ (pos 0) n then field key (show_int n) rest else rest

unfoldable pub allowed_fields : List Bytes → Bytes → Bytes
unfolding field
allowed_fields [] rest = rest
allowed_fields (aip ∷ aips) rest = field (bytes "allowed_ip") aip (allowed_fields aips rest)

-- A peer with no range of addresses is given all.
unfoldable pub allowed_or_all : List Bytes → Bytes → Bytes
unfolding field allowed_fields
allowed_or_all [] rest =
    field (bytes "allowed_ip") (bytes "0.0.0.0/0") (field (bytes "allowed_ip") (bytes "::/0") rest)
allowed_or_all (aip ∷ aips) rest = allowed_fields (aip ∷ aips) rest

unfoldable pub peer_fields : List Peer → Bytes
unfolding field text_field number_field allowed_or_all
peer_fields [] = []
peer_fields (p ∷ ps) = field (bytes "public_key") p.public_key (
    text_field (bytes "preshared_key") p.preshared_key (
      text_field (bytes "endpoint") p.endpoint (
        number_field (bytes "persistent_keepalive_interval") p.persistent_keepalive
          (allowed_or_all p.allowed_ips (peer_fields ps)))))

-- `ToUAPI`.
unfoldable pub to_uapi : Config → Bytes
unfolding field number_field peer_fields
to_uapi c = field (bytes "private_key") c.private_key (
    number_field (bytes "listen_port") c.listen_port
      (field (bytes "replace_peers") (bytes "true") (peer_fields c.peers)))

-- The reader: lines, each cut at its first equals sign.
abbrev pub Entries : Type 0
Entries = List (Bytes × Bytes)

unfoldable pub read_line : Bytes → Entries → Entries
unfolding index_where
read_line line rest = elim (index_where (λ b. b == 61) line) [
  | none ↦ rest
  | some i ↦ (take i line, drop (suc i) line) ∷ rest
]

unfoldable pub read_lines : List Bytes → Entries
unfolding read_line
read_lines [] = []
read_lines (line ∷ lines) = read_line line (read_lines lines)

unfoldable pub read_uapi : Bytes → Entries
unfolding read_lines split_at
read_uapi s = read_lines (split_at 10 s)

-- The settings that a configuration stands for.
unfoldable pub text_entry : Bytes → Bytes → Entries
unfolding bytes_eq
text_entry key val = if bytes_eq val [] then [] else (key, val) ∷ []

unfoldable pub number_entry : Bytes → ℤ → Entries
unfolding show_int
number_entry key n = if ltb_ℤ (pos 0) n then (key, show_int n) ∷ [] else []

unfoldable pub allowed_entries : List Bytes → Entries
allowed_entries aips = map (λ aip. (bytes "allowed_ip", aip)) aips

abbrev pub allowed_of : List Bytes → List Bytes
allowed_of [] = bytes "0.0.0.0/0" ∷ bytes "::/0" ∷ []
allowed_of (aip ∷ aips) = aip ∷ aips

unfoldable pub peer_entries : List Peer → Entries
unfolding text_entry number_entry allowed_entries
peer_entries [] = []
peer_entries (p ∷ ps) =
    (bytes "public_key", p.public_key)
    ∷ (text_entry (bytes "preshared_key") p.preshared_key
        ++ (text_entry (bytes "endpoint") p.endpoint
            ++ (number_entry (bytes "persistent_keepalive_interval") p.persistent_keepalive
                ++ (allowed_entries (allowed_of p.allowed_ips) ++ peer_entries ps))))

unfoldable pub uapi_entries : Config → Entries
unfolding number_entry peer_entries
uapi_entries c =
    (bytes "private_key", c.private_key)
    ∷ (number_entry (bytes "listen_port") c.listen_port
        ++ (bytes "replace_peers", bytes "true") ∷ peer_entries c.peers)
