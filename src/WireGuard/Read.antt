-- ===== src/WireGuard/Read.antt =====
-- What a reader of `ToUAPI`'s text finds (wireguard.go).
use bitlab.Prelude.{
  ℕ, zero, suc, ◌/◌, ◌≡◌, refl, sym, ap, ◌==◌, Bool, true, false, not, ◌&&◌, &&_true, List, [], ◌∷◌,
  ◌++◌, inl, inr, Bytes, bytes, bytes_eq, ltb, All, Bool-cases, arith,
}
use mathlib.Core.Path.{subst}
use bitlab.Prelude.Int.{ℤ, pos, negsuc, ltb_ℤ}
use bitlab.Prelude.Members.{All-append}
use bitlab.Prelude.Search.{index_where, split_at}
use bitlab.Prelude.Decimal.{show_int, show_nat, digits_back}
use bitlab.Prelude.Lines.{
  Lacks, All-reverse, split_at-append, index_where-append, take-append, drop-append,
}
use bitlab.WireGuard.Config.{Peer, Config, Resolver, ok}
use bitlab.WireGuard.Parse.{parse_config}
use bitlab.WireGuard.Keys.{IsKey-Lacks}
use bitlab.WireGuard.Sound.{IsLineSafe, IsKeyOrEmpty, IsSoundPeer}
use bitlab.WireGuard.Usable.{parse_config-IsUsable}
use bitlab.WireGuard.Uapi.{
  field, text_field, number_field, allowed_fields, allowed_or_all, peer_fields, to_uapi, Entries,
  read_line, read_lines, read_uapi, text_entry, number_entry, allowed_entries, allowed_of,
  peer_entries, uapi_entries,
}

digits_back-Lacks : (f n : ℕ) → Lacks 10 (digits_back f n)
unfolding digits_back
digits_back-Lacks zero n = tt
digits_back-Lacks (suc f) n = elim (Bool-cases (ltb n 10)) [
  | inl e ↦ rw e (ground arith, tt)
  | inr e ↦ rw e (ground arith, digits_back-Lacks f (n / 10))
]

show_int-Lacks : (n : ℤ) → Lacks 10 (show_int n)
unfolding show_int show_nat
show_int-Lacks (pos n) = All-reverse _ (digits_back (suc n) n) (digits_back-Lacks (suc n) n)
show_int-Lacks (negsuc n) = (
  refl,
  All-reverse _ (digits_back (suc (suc n)) (suc n)) (digits_back-Lacks (suc (suc n)) (suc n)),
)

append_assoc : (k v rest : Bytes) → k ++ 61 ∷ (v ++ rest) ≡ (k ++ 61 ∷ v) ++ rest
append_assoc [] v rest = refl
append_assoc (b ∷ k) v rest = ap (◌∷◌ b) (append_assoc k v rest)

read_line-key :
    (key val : Bytes) (rest : Entries)
    → Lacks 61 key
    → read_line (key ++ 61 ∷ val) rest ≡ (key, val) ∷ rest
unfolding read_line
read_line-key key val rest h =
    rw
      (
        index_where-append (λ b. b == 61) key val 61 h refl,
        read_line,
        take-append key (61 ∷ val),
        drop-append key val 61,
      )
      refl

-- A key with neither a newline nor an equals sign.
unfoldable is_name : Bytes → Bool
is_name [] = true
is_name (b ∷ s) = (not (b == 10) && not (b == 61)) && is_name s

is_name_sound : (s : Bytes) → is_name s ≡ true → Lacks 10 s × Lacks 61 s
unfolding is_name
is_name_sound [] h = (tt, tt)
is_name_sound (b ∷ s) h =
    let (here, there) = &&_true (not (b == 10) && not (b == 61)) (is_name s) h in
    let (one_line, no_sign) = is_name_sound s there in
    ((ground arith, one_line), (ground arith, no_sign))

read_uapi-nil : read_uapi [] ≡ []
unfolding read_uapi split_at read_lines read_line index_where
read_uapi-nil = refl

-- A line is read as it was written.
read_uapi-field :
    (key val rest : Bytes)
    → is_name key ≡ true
    → Lacks 10 val
    → read_uapi (field key val rest) ≡ (key, val) ∷ read_uapi rest
unfolding read_uapi field read_lines
read_uapi-field key val rest named hv =
    let (one_line, no_sign) = is_name_sound key named in
    rw (append_assoc key val (10 ∷ rest)) (
      rw
        (split_at-append 10 (key ++ 61 ∷ val) rest
          (All-append (λ b. (b == 10) ≡ false) key (61 ∷ val) one_line (refl, hv)))
        (read_line-key key val (read_lines (split_at 10 rest)) no_sign))

read_uapi-text_field :
    (key val rest : Bytes)
    → is_name key ≡ true
    → Lacks 10 val
    → read_uapi (text_field key val rest) ≡ text_entry key val ++ read_uapi rest
unfolding text_field text_entry
read_uapi-text_field key val rest named hv = elim (Bool-cases (bytes_eq val [])) [
  | inl e ↦ rw e refl
  | inr e ↦ rw e (read_uapi-field key val rest named hv)
]

read_uapi-number_field :
    (key : Bytes) (n : ℤ) (rest : Bytes)
    → is_name key ≡ true
    → read_uapi (number_field key n rest) ≡ number_entry key n ++ read_uapi rest
unfolding number_field number_entry
read_uapi-number_field key n rest named = elim (Bool-cases (ltb_ℤ (pos 0) n)) [
  | inl e ↦ rw e (read_uapi-field key (show_int n) rest named (show_int-Lacks n))
  | inr e ↦ rw e refl
]

read_uapi-allowed_fields :
    (aips : List Bytes) (rest : Bytes)
    → All (Lacks 10) aips
    → read_uapi (allowed_fields aips rest) ≡ allowed_entries aips ++ read_uapi rest
unfolding allowed_fields allowed_entries is_name
read_uapi-allowed_fields [] rest h = refl
read_uapi-allowed_fields (aip ∷ aips) rest h =
    rw
      (
        read_uapi-field (bytes "allowed_ip") aip (allowed_fields aips rest) refl h.0,
        read_uapi-allowed_fields aips rest h.1,
      )
      refl

read_uapi-allowed_or_all :
    (aips : List Bytes) (rest : Bytes)
    → All (Lacks 10) aips
    → read_uapi (allowed_or_all aips rest) ≡ allowed_entries (allowed_of aips) ++ read_uapi rest
unfolding allowed_or_all allowed_entries is_name
read_uapi-allowed_or_all [] rest h =
    read_uapi-allowed_fields (allowed_of []) rest (is_name_text, (is_name_six, tt))
  where
    is_name_text : Lacks 10 (bytes "0.0.0.0/0")
    is_name_text = (is_name_sound (bytes "0.0.0.0/0") refl).0

    is_name_six : Lacks 10 (bytes "::/0")
    is_name_six = (is_name_sound (bytes "::/0") refl).0
read_uapi-allowed_or_all (aip ∷ aips) rest h = read_uapi-allowed_fields (aip ∷ aips) rest h

key-Lacks : (k : Bytes) → IsKeyOrEmpty k → Lacks 10 k
key-Lacks k (inl none_there) = subst (Lacks 10) (sym none_there) tt
key-Lacks k (inr key) = IsKey-Lacks 10 k (omega arith) key.1

read_uapi-peer_fields :
    (ps : List Peer) → All IsSoundPeer ps → read_uapi (peer_fields ps) ≡ peer_entries ps
unfolding peer_fields peer_entries is_name
read_uapi-peer_fields [] h = read_uapi-nil
read_uapi-peer_fields (p ∷ ps) h =
    let alive = p.persistent_keepalive in
    let rest = allowed_or_all p.allowed_ips (peer_fields ps) in
    let kept = number_field (bytes "persistent_keepalive_interval") alive rest in
    let reached = text_field (bytes "endpoint") p.endpoint kept in
    let shared = text_field (bytes "preshared_key") p.preshared_key reached in
    rw
      (
        read_uapi-field (bytes "public_key") p.public_key shared refl
            (key-Lacks p.public_key h.0.public),
        read_uapi-text_field (bytes "preshared_key") p.preshared_key reached refl
            (key-Lacks p.preshared_key h.0.preshared),
        read_uapi-text_field (bytes "endpoint") p.endpoint kept refl h.0.reached,
        read_uapi-number_field (bytes "persistent_keepalive_interval") alive rest refl,
        read_uapi-allowed_or_all p.allowed_ips (peer_fields ps) h.0.allowed,
        read_uapi-peer_fields ps h.1,
      )
      refl

-- With a resolver whose texts have no newline: a reader that takes the text of ToUAPI apart at its
-- newlines, and each line at its first equals sign, finds for a configuration that
-- ParseWireGuardConfig gave exactly its settings, in order.
pub read_uapi-to_uapi :
    (r : Resolver) (conf : Bytes) (c : Config)
    → IsLineSafe r
    → parse_config r conf ≡ ok c
    → read_uapi (to_uapi c) ≡ uapi_entries c
unfolding to_uapi uapi_entries is_name
read_uapi-to_uapi r conf c safe h =
    let usable = parse_config-IsUsable r conf c safe h in
    let peers = peer_fields c.peers in
    let replaced = field (bytes "replace_peers") (bytes "true") peers in
    rw
      (
        read_uapi-field (bytes "private_key") c.private_key
            (number_field (bytes "listen_port") c.listen_port replaced) refl
            (IsKey-Lacks 10 c.private_key (omega arith) (usable.key.1)),
        read_uapi-number_field (bytes "listen_port") c.listen_port replaced refl,
        read_uapi-field (bytes "replace_peers") (bytes "true") peers refl
            ((is_name_sound (bytes "true") refl).0),
        read_uapi-peer_fields c.peers usable.settings.all_peers,
      )
      refl
