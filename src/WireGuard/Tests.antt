-- ===== src/WireGuard/Tests.antt =====
-- A configuration, its text for the device, and the properties there.
use bitlab.Prelude.{
  suc, ◌≡◌, refl, ◌==◌, true, false, [], ◌∷◌, ◌++◌, Option, none, some, inl, inr, Bytes, bytes,
  bytes_eq, has_prefix, has_suffix, Option-cases, take, drop,
}
use bitlab.Prelude.Members.{Whenever, All-append}
use bitlab.Prelude.Trim.{trim_space, trim_left, trim_back}
use bitlab.Prelude.Search.{to_lower, lower_byte, index_of, index_where, split_at, has_text}
use bitlab.Prelude.Decimal.{
  show_int, parse_int, positive, negative, digits_value, is_digit, show_nat, digits_back,
}
use bitlab.Prelude.Lines.{Lacks, All-drop}
use bitlab.WireGuard.Config.{
  Config, Resolver, ok, err, unknown_section, no_private_key, is_hex, all_hex, hex_digit,
  hex_encode, decode_key, parse_key, first_address, resolve_endpoint,
}
use bitlab.WireGuard.Parse.{
  new_peer, new_config, keep_parts, comma_parts, cut_at, strip_comment, or_number, add_peer,
  add_addresses, add_dns, interface_line, peer_line, value_line, section_line, plain_line,
  line_step, parse_lines, finish, scan_lines, parse_config,
}
use bitlab.WireGuard.Sound.{IsLineSafe}
use bitlab.WireGuard.Usable.{IsUsable, parse_config-IsUsable}
use bitlab.WireGuard.Uapi.{
  field, text_field, number_field, allowed_fields, allowed_or_all, peer_fields, to_uapi, read_line,
  read_lines, read_uapi, text_entry, number_entry, allowed_entries, peer_entries, uapi_entries,
}
use bitlab.WireGuard.Read.{read_uapi-to_uapi}
use bitlab.WireGuard.Load.{Files, first_candidate, load_conf}

program : Unit {0}
unfolding parse_config scan_lines finish parse_lines line_step plain_line section_line value_line
    peer_line interface_line add_dns add_addresses add_peer or_number strip_comment cut_at
    comma_parts keep_parts resolve_endpoint first_address parse_key decode_key hex_encode hex_digit
    all_hex is_hex to_lower lower_byte index_of index_where split_at has_text parse_int positive
    negative digits_value is_digit show_nat digits_back trim_space trim_left trim_back bytes_eq
    has_prefix has_suffix show_int field text_field number_field allowed_fields allowed_or_all
    peer_fields to_uapi read_line read_lines read_uapi text_entry number_entry allowed_entries
    peer_entries uapi_entries first_candidate load_conf
program = tt

-- A host ends at the first colon; only texts that begin with a digit are addresses.
abbrev is_address : Bytes → Option Bytes
is_address [] = none
is_address (b ∷ s) = elim (b == 49) [ true ↦ some (b ∷ s) | false ↦ none ]

abbrev host_port : Bytes → Option (Bytes × Bytes)
host_port s = elim (index_where (λ b. b == 58) s) [
  | none ↦ none
  | some i ↦ some (take i s, drop (suc i) s)
]

abbrev small_resolver : Resolver
small_resolver = record {
  base64_decode = λ s. none;
  parse_addr = is_address;
  parse_prefix = is_address;
  split_host_port = host_port;
  parse_ip = λ host. none;
  lookup_ip = λ host. some (bytes "10.0.0.9" ∷ []);
  join_host_port = λ host port. host ++ 58 ∷ port;
}

split_safe :
    (s : Bytes) → Lacks 10 s → Whenever (λ (hp : Bytes × Bytes). Lacks 10 hp.1) (host_port s)
split_safe s h = elim (Option-cases (index_where (λ b. b == 58) s)) [
  | inl bare ↦ rw (bare, host_port) tt
  | inr (i, at) ↦ rw (at, host_port) (All-drop (λ b. (b == 10) ≡ false) (suc i) s h)
]

small_resolver-IsLineSafe : IsLineSafe small_resolver
small_resolver-IsLineSafe = record {
  split = λ s h. split_safe s h;
  ip = λ host. tt;
  found = λ host. ((refl, (refl, (refl, (refl, (refl, (refl, (refl, (refl, tt)))))))), tt);
  join = λ host port hh hp. All-append (λ b. (b == 10) ≡ false) host (58 ∷ port) hh (refl, hp);
}

abbrev key_text : Bytes
key_text = bytes "ABCDEF0123456789abcdef0123456789abcdef0123456789abcdef0123456789"

abbrev key : Bytes
key = bytes "abcdef0123456789abcdef0123456789abcdef0123456789abcdef0123456789"

abbrev conf : Bytes
conf =
    bytes "[Interface]\nPrivateKey = "
    ++ (key_text
        ++ (bytes "\nAddress = 10.0.0.2 # home\n[Peer]\nEndpoint = vpn:51820\nPublicKey: "
            ++ (key_text ++ bytes "\n")))

abbrev parsed : Config
parsed = record new_config {
  private_key = key;
  addresses = bytes "10.0.0.2" ∷ [];
  dns = bytes "1.1.1.1" ∷ bytes "8.8.8.8" ∷ [];
  peers = record new_peer { public_key = key; endpoint = bytes "10.0.0.9:51820" } ∷ [];
}

parses_conf : parse_config small_resolver conf ≡ ok parsed
unfolding program
parses_conf = refl

parse_config-IsUsable_example : IsUsable parsed
parse_config-IsUsable_example =
    parse_config-IsUsable small_resolver conf parsed small_resolver-IsLineSafe parses_conf

read_uapi-to_uapi_example : read_uapi (to_uapi parsed) ≡ uapi_entries parsed
read_uapi-to_uapi_example =
    read_uapi-to_uapi small_resolver conf parsed small_resolver-IsLineSafe parses_conf

rejects_section :
    parse_config small_resolver (bytes "[Nobody]") ≡ err (unknown_section (bytes "nobody"))
unfolding program
rejects_section = refl

rejects_no_key : parse_config small_resolver (bytes "# nothing\n") ≡ err no_private_key
unfolding program
rejects_no_key = refl

parsed_text :
    to_uapi parsed
    ≡ bytes "private_key="
      ++ (key
          ++ (bytes "\nreplace_peers=true\npublic_key="
              ++ (key
                  ++ bytes "\nendpoint=10.0.0.9:51820\nallowed_ip=0.0.0.0/0\nallowed_ip=::/0\n")))
unfolding program
parsed_text = refl

abbrev one_file : Files
one_file = record {
  stat = λ p. bytes_eq p (bytes "dwg0.conf");
  read_file = λ p. some (bytes "[Peer]");
  join = λ d f. d ++ f;
}

finds_candidate : load_conf one_file (bytes " ") (bytes "d") ≡ some (bytes "[Peer]")
unfolding program
finds_candidate = refl

takes_text : load_conf one_file (bytes "[Interface]") [] ≡ some (bytes "[Interface]")
unfolding program
takes_text = refl
