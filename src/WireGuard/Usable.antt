-- ===== src/WireGuard/Usable.antt =====
-- The configuration that `ParseWireGuardConfig` gives (wireguard.go).
use bitlab.Prelude.{
  ℕ, ◌≡◌, ◌≤◌, inl, inr, true, false, List, [], ◌∷◌, none, Bytes, leb, length, All, Bool-cases,
  arith,
}
use mathlib.Core.Path.{subst}
use bitlab.Prelude.Search.{split_at}
use bitlab.Prelude.Lines.{Lacks, split_at-Lacks}
use bitlab.WireGuard.Config.{Config, Resolver, ok}
use bitlab.WireGuard.Parse.{new_config, Parsing, add_peer, parse_lines, scan_lines}
use bitlab.WireGuard.Keys.{IsKey}
use bitlab.WireGuard.Parse.{finish, parse_config}
use bitlab.WireGuard.Sound.{
  IsLineSafe, IsKeyOrEmpty, IsSoundConfig, IsSound, Ensures, Ensures-bind, new_config-IsSoundConfig,
  add_peer-IsSoundConfig,
}
use bitlab.WireGuard.Loop.{parse_lines-IsSound}

-- A configuration that a tunnel can be made of.
pub record IsUsable (c : Config) : Type 0 where
  pub key : IsKey c.private_key
  pub addressed : 1 ≤ length c.addresses
  pub named : 1 ≤ length c.dns
  pub settings : IsSoundConfig c

scan_lines-All : (P : Bytes → Type 0) (lines : List Bytes) → All P lines → All P (scan_lines lines)
unfolding scan_lines
scan_lines-All P [] h = tt
scan_lines-All P ([] ∷ []) h = tt
scan_lines-All P ((b ∷ line) ∷ []) h = h
scan_lines-All P ([] ∷ next ∷ lines) h = (h.0, scan_lines-All P (next ∷ lines) h.1)
scan_lines-All P ((b ∷ line) ∷ next ∷ lines) h = (h.0, scan_lines-All P (next ∷ lines) h.1)

key_of_full : (k : Bytes) → leb (length k) 0 ≡ false → IsKeyOrEmpty k → IsKey k
key_of_full k full (inl none_there) =
    absurd (empty_full (subst (λ z. leb (length z) 0 ≡ false) none_there full))
  where
    empty_full : ¬ (true ≡ false)
    empty_full e = cc
key_of_full k full (inr key) = key

at_least_one : (n : ℕ) → leb n 0 ≡ false → 1 ≤ n
at_least_one n h = ground arith

finish-IsUsable : (r : Resolver) (s : Parsing) → IsSound s → Ensures IsUsable (finish r s)
unfolding finish
finish-IsUsable r s h =
    let c = add_peer s.peer s.config in
    let sound = add_peer-IsSoundConfig s.peer s.config h.sound_peer h.sound_config in
    elim (Bool-cases (leb (length c.private_key) 0)) [
      | inl no_key ↦ rw no_key tt
      | inr key ↦ elim (Bool-cases (leb (length c.addresses) 0)) [
        | inl nowhere ↦ rw (key, nowhere) tt
        | inr somewhere ↦ elim (Bool-cases (leb (length c.dns) 0)) [
          | inl default ↦
              rw (key, somewhere, default)
                (record {
                  key = key_of_full c.private_key key sound.private;
                  addressed = at_least_one (length c.addresses) somewhere;
                  named = omega arith;
                  settings = record {
                    private = sound.private;
                    unit = sound.unit;
                    port = sound.port;
                    all_peers = sound.all_peers;
                  };
                })
          | inr given ↦
              rw (key, somewhere, given)
                (record {
                  key = key_of_full c.private_key key sound.private;
                  addressed = at_least_one (length c.addresses) somewhere;
                  named = at_least_one (length c.dns) given;
                  settings = sound;
                })
        ]
      ]
    ]

parse_config-Ensures :
    (r : Resolver) (conf : Bytes) → IsLineSafe r → Ensures IsUsable (parse_config r conf)
unfolding parse_config
parse_config-Ensures r conf safe =
    Ensures-bind IsSound IsUsable
      (parse_lines r (scan_lines (split_at 10 conf))
        (record { config = new_config; section = []; peer = none }))
      _
      (parse_lines-IsSound r safe (scan_lines (split_at 10 conf)) _
        (scan_lines-All (Lacks 10) (split_at 10 conf) (split_at-Lacks 10 conf))
        (record { sound_config = new_config-IsSoundConfig; sound_peer = tt }))
      (λ s h. finish-IsUsable r s h)

-- With a resolver whose texts have no newline: a configuration that ParseWireGuardConfig gives has a
-- private key of 32 bytes in hexadecimal, an address, a resolver, a positive MTU and no negative
-- port; and each of its peers has keys that are empty or such keys, no negative keepalive, and
-- neither an endpoint nor an allowed range with a newline in it.
pub parse_config-IsUsable :
    (r : Resolver) (conf : Bytes) (c : Config)
    → IsLineSafe r
    → parse_config r conf ≡ ok c
    → IsUsable c
parse_config-IsUsable r conf c safe h =
    subst (Ensures IsUsable) h (parse_config-Ensures r conf safe)
