-- ===== src/WireGuard/Parse.antt =====
-- wireguard.go: `ParseWireGuardConfig`.
use bitlab.Prelude.{
  suc, ◌-◌, ◌==◌, Bool, ◌&&◌, ◌||◌, List, [], ◌∷◌, ◌++◌, Option, none, some, Bytes, bytes, bytes_eq,
  has_prefix, has_suffix, if◌then◌else◌, leb, length, take, drop,
}
use bitlab.Prelude.Int.{ℤ, pos, ltb_ℤ, leb_ℤ}
use bitlab.Prelude.Trim.{trim_space}
use bitlab.Prelude.Search.{to_lower, index_of, index_where, split_at, has_text}
use bitlab.Prelude.Decimal.{parse_int}
use bitlab.WireGuard.Config.{
  Peer, Config, Resolver, unknown_section, bad_private_key, bad_address, bad_public_key,
  bad_preshared_key, bad_endpoint, unreadable, no_private_key, no_address, Result, ok, err, ◌>>=◌,
  need, parse_key, resolve_endpoint,
}

abbrev pub new_peer : Peer
new_peer = record {
  public_key = [];
  preshared_key = [];
  endpoint = [];
  allowed_ips = [];
  persistent_keepalive = pos 0;
}

abbrev pub new_config : Config
new_config = record {
  private_key = [];
  addresses = [];
  dns = [];
  mtu = pos 1420;
  listen_port = pos 0;
  peers = [];
}

-- The variables of the loop over the lines.
pub record Parsing : Type 0 where
  pub config : Config
  pub section : Bytes
  pub peer : Option Peer

-- The parts of a list at its commas, trimmed, less the empty ones.
unfoldable pub keep_parts : List Bytes → List Bytes
unfolding trim_space bytes_eq
keep_parts [] = []
keep_parts (part ∷ parts) =
    if bytes_eq (trim_space part) [] then keep_parts parts else trim_space part ∷ keep_parts parts

unfoldable pub comma_parts : Bytes → List Bytes
unfolding keep_parts split_at
comma_parts val = keep_parts (split_at 44 val)

-- `strings.TrimSpace(line[:idx])` where the text occurs.
unfoldable pub cut_at : Bytes → Bytes → Bytes
unfolding index_of trim_space
cut_at text line = elim (index_of text line) [ none ↦ line | some i ↦ trim_space (take i line) ]

-- The line without its comment.
unfoldable pub strip_comment : Bytes → Bytes
unfolding cut_at
strip_comment line = cut_at (9 ∷ 35 ∷ []) (cut_at (bytes " #") line)

-- `if n, err := strconv.Atoi(val); err == nil && n > 0`, and the like.
unfoldable pub or_number : (ℤ → Bool) → ℤ → Bytes → ℤ
unfolding parse_int
or_number wanted old val = elim (parse_int val) [
  | none ↦ old
  | some n ↦ if wanted n then n else old
]

unfoldable pub add_peer : Option Peer → Config → Config
add_peer none c = c
add_peer (some p) c = record c { peers = c.peers ++ p ∷ [] }

module _ (r : Resolver) where
  -- `case "address"`.
  unfoldable pub add_addresses : List Bytes → List Bytes → Result (List Bytes)
  unfolding has_text
  add_addresses [] out = ok out
  add_addresses (part ∷ parts) out = do
    addr ←
        need (bad_address part)
          (if has_text part (bytes "/") then r.parse_prefix part else r.parse_addr part)
    add_addresses parts (out ++ addr ∷ [])

  -- `case "dns"`: what is no address is left out.
  unfoldable pub add_dns : List Bytes → List Bytes → List Bytes
  add_dns [] out = out
  add_dns (part ∷ parts) out = elim (r.parse_addr part) [
    | none ↦ add_dns parts out
    | some addr ↦ add_dns parts (out ++ addr ∷ [])
  ]

  -- `case "interface"`.
  unfoldable pub interface_line : Bytes → Bytes → Config → Result Config
  unfolding add_addresses add_dns or_number comma_parts parse_key bytes_eq
  interface_line key val c =
      if bytes_eq key (bytes "privatekey")
      then (do k ← need bad_private_key (parse_key r val); ok (record c { private_key = k }))
      else (if bytes_eq key (bytes "address")
          then (do
            addresses ← add_addresses (comma_parts val) c.addresses
            ok (record c { addresses = addresses }))
          else (if bytes_eq key (bytes "dns")
              then ok (record c { dns = add_dns (comma_parts val) c.dns })
              else (if bytes_eq key (bytes "mtu")
                  then ok (record c { mtu = or_number (ltb_ℤ (pos 0)) c.mtu val })
                  else (if bytes_eq key (bytes "listenport")
                      then ok
                          (record c { listen_port = or_number (ltb_ℤ (pos 0)) c.listen_port val })
                      else ok c))))

  -- `case "peer"`.
  unfoldable pub peer_line : Bytes → Bytes → Peer → Result Peer
  unfolding or_number comma_parts parse_key resolve_endpoint bytes_eq
  peer_line key val p =
      if bytes_eq key (bytes "publickey")
      then (do k ← need bad_public_key (parse_key r val); ok (record p { public_key = k }))
      else (if bytes_eq key (bytes "presharedkey")
          then (do
            k ← need bad_preshared_key (parse_key r val)
            ok (record p { preshared_key = k }))
          else (if bytes_eq key (bytes "endpoint")
              then (do
                ep ← need bad_endpoint (resolve_endpoint r val)
                ok (record p { endpoint = ep }))
              else (if bytes_eq key (bytes "allowedips")
                  then ok (record p { allowed_ips = p.allowed_ips ++ comma_parts val })
                  else (if bytes_eq key (bytes "persistentkeepalive")
                      then ok (record p {
                        persistent_keepalive = or_number (leb_ℤ (pos 0)) p.persistent_keepalive val;
                      })
                      else ok p))))

  abbrev pub the_peer : Option Peer → Peer
  the_peer none = new_peer
  the_peer (some p) = p

  -- A line `key = value`.
  unfoldable pub value_line : Bytes → Bytes → Parsing → Result Parsing
  unfolding interface_line peer_line bytes_eq
  value_line key val s =
      if bytes_eq s.section (bytes "interface")
      then (do c ← interface_line key val s.config; ok (record s { config = c }))
      else (if bytes_eq s.section (bytes "peer")
          then (do p ← peer_line key val (the_peer s.peer); ok (record s { peer = some p }))
          else ok s)

  -- A line `[section]`.
  unfoldable pub section_line : Bytes → Parsing → Result Parsing
  unfolding add_peer bytes_eq
  section_line sec s =
      if bytes_eq sec (bytes "peer")
      then ok (record s { config = add_peer s.peer s.config; section = sec; peer = some new_peer })
      else (if bytes_eq sec (bytes "interface")
          then ok (record s { section = sec })
          else err (unknown_section sec))

  -- A line without its comment.
  unfoldable pub plain_line : Bytes → Parsing → Result Parsing
  unfolding section_line value_line has_prefix has_suffix index_where trim_space to_lower
  plain_line line s =
      if has_prefix line (bytes "[") && has_suffix line (bytes "]")
      then section_line (to_lower (trim_space (take (length line - 2) (drop 1 line)))) s
      else elim (index_where (λ b. b == 61 || b == 58) line) [
        | none ↦ ok s
        | some eq ↦
            value_line (to_lower (trim_space (take eq line))) (trim_space (drop (suc eq) line)) s
      ]

  -- The body of the loop.
  unfoldable pub line_step : Bytes → Parsing → Result Parsing
  unfolding plain_line strip_comment has_prefix bytes_eq trim_space
  line_step text s =
      let line = trim_space text in
      if bytes_eq line [] || (has_prefix line (bytes "#") || has_prefix line (bytes ";"))
      then ok s
      else plain_line (strip_comment line) s

  -- The loop. The scanner gives up at a line of 65,536 bytes or more.
  unfoldable pub parse_lines : List Bytes → Parsing → Result Parsing
  unfolding line_step
  parse_lines [] s = ok s
  parse_lines (text ∷ texts) s =
      if leb 65_536 (length text)
      then err unreadable
      else (do s' ← line_step text s; parse_lines texts s')

  -- The checks after the loop.
  unfoldable pub finish : Parsing → Result Config
  unfolding add_peer
  finish s =
      let c = add_peer s.peer s.config in
      if leb (length c.private_key) 0
      then err no_private_key
      else (if leb (length c.addresses) 0
          then err no_address
          else ok (
              if leb (length c.dns) 0
              then record c { dns = bytes "1.1.1.1" ∷ bytes "8.8.8.8" ∷ [] }
              else c))

-- The lines of `bufio.Scanner`, which `TrimSpace` then trims: the text behind the last newline counts where it is not empty.
unfoldable pub scan_lines : List Bytes → List Bytes
scan_lines [] = []
scan_lines ([] ∷ []) = []
scan_lines ((b ∷ line) ∷ []) = (b ∷ line) ∷ []
scan_lines (line ∷ next ∷ lines) = line ∷ scan_lines (next ∷ lines)

-- `ParseWireGuardConfig`.
unfoldable pub parse_config : Resolver → Bytes → Result Config
unfolding parse_lines finish scan_lines split_at
parse_config r conf = do
  s ←
      parse_lines r (scan_lines (split_at 10 conf))
        (record { config = new_config; section = []; peer = none })
  finish r s
