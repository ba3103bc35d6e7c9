-- ===== src/WireGuard/Loop.antt =====
-- The loop of `ParseWireGuardConfig` over the lines (wireguard.go).
use bitlab.Prelude.{
  suc, ◌-◌, ◌≡◌, ◌==◌, inl, inr, false, ◌&&◌, ◌||◌, List, [], ◌∷◌, Option, none, some, Bytes, bytes,
  bytes_eq, has_prefix, has_suffix, leb, length, take, drop, All, Bool-cases, Option-cases,
}
use bitlab.Prelude.Members.{Whenever}
use bitlab.Prelude.Trim.{trim_space}
use bitlab.Prelude.Search.{to_lower, index_of, index_where}
use bitlab.Prelude.Lines.{Lacks, All-take, All-drop, All-trim_space}
use bitlab.WireGuard.Config.{Peer, Resolver}
use bitlab.WireGuard.Parse.{
  Parsing, cut_at, strip_comment, interface_line, peer_line, the_peer, value_line, section_line,
  plain_line, line_step, parse_lines,
}
use bitlab.WireGuard.Sound.{
  IsLineSafe, IsSoundPeer, IsSoundConfig, IsSound, Ensures, Ensures-bind, new_peer-IsSoundPeer,
  add_peer-IsSoundConfig,
}
use bitlab.WireGuard.Kept.{interface_line-IsSoundConfig, peer_line-IsSoundPeer}

module _ (r : Resolver) (safe : IsLineSafe r) where
  the_peer-IsSoundPeer : (p : Option Peer) → Whenever IsSoundPeer p → IsSoundPeer (the_peer r p)
  the_peer-IsSoundPeer none h = new_peer-IsSoundPeer
  the_peer-IsSoundPeer (some p) h = h

  value_line-IsSound :
      (key val : Bytes) (s : Parsing)
      → Lacks 10 val
      → IsSound s
      → Ensures IsSound (value_line r key val s)
  unfolding value_line
  value_line-IsSound key val s hv h = elim (Bool-cases (bytes_eq s.section (bytes "interface"))) [
    | inl e ↦ rw e (
        Ensures-bind IsSoundConfig IsSound (interface_line r key val s.config) _
          (interface_line-IsSoundConfig r safe key val s.config h.sound_config)
          (λ c hc. record { sound_config = hc; sound_peer = h.sound_peer }))
    | inr ne ↦ elim (Bool-cases (bytes_eq s.section (bytes "peer"))) [
      | inl e ↦
          rw (ne, e)
            (Ensures-bind IsSoundPeer IsSound (peer_line r key val (the_peer r s.peer)) _
              (peer_line-IsSoundPeer r safe key val (the_peer r s.peer) hv
                (the_peer-IsSoundPeer s.peer h.sound_peer))
              (λ p hp. record { sound_config = h.sound_config; sound_peer = hp }))
      | inr ne2 ↦ rw (ne, ne2) h
    ]
  ]

  section_line-IsSound :
      (sec : Bytes) (s : Parsing) → IsSound s → Ensures IsSound (section_line r sec s)
  unfolding section_line
  section_line-IsSound sec s h = elim (Bool-cases (bytes_eq sec (bytes "peer"))) [
    | inl e ↦ rw e (record {
      sound_config = add_peer-IsSoundConfig s.peer s.config h.sound_peer h.sound_config;
      sound_peer = new_peer-IsSoundPeer;
    })
    | inr ne ↦ elim (Bool-cases (bytes_eq sec (bytes "interface"))) [
      | inl e ↦ rw (ne, e) (record { sound_config = h.sound_config; sound_peer = h.sound_peer })
      | inr ne2 ↦ rw (ne, ne2) tt
    ]
  ]

  plain_line-IsSound :
      (line : Bytes) (s : Parsing)
      → Lacks 10 line
      → IsSound s
      → Ensures IsSound (plain_line r line s)
  unfolding plain_line
  plain_line-IsSound line s hl h =
      elim (Bool-cases (has_prefix line (bytes "[") && has_suffix line (bytes "]"))) [
        | inl e ↦ rw e (
            section_line-IsSound (to_lower (trim_space (take (length line - 2) (drop 1 line)))) s h)
        | inr ne ↦ elim (Option-cases (index_where (λ b. b == 61 || b == 58) line)) [
          | inl bare ↦ rw (ne, bare) h
          | inr (eq, found) ↦
              rw (ne, found)
                (value_line-IsSound (to_lower (trim_space (take eq line)))
                  (trim_space (drop (suc eq) line)) s
                  (All-trim_space _ (drop (suc eq) line) (All-drop _ (suc eq) line hl)) h)
        ]
      ]

  cut_at-Lacks : (text line : Bytes) → Lacks 10 line → Lacks 10 (cut_at text line)
  unfolding cut_at
  cut_at-Lacks text line h = elim (Option-cases (index_of text line)) [
    | inl whole ↦ rw (whole, cut_at) h
    | inr (i, found) ↦ rw (found, cut_at) (All-trim_space _ (take i line) (All-take _ i line h))
  ]

  line_step-IsSound :
      (text : Bytes) (s : Parsing)
      → Lacks 10 text
      → IsSound s
      → Ensures IsSound (line_step r text s)
  unfolding line_step strip_comment
  line_step-IsSound text s hl h =
      let line = trim_space text in
      let clean = All-trim_space (λ b. (b == 10) ≡ false) text hl in
      elim (Bool-cases
        (bytes_eq line [] || (has_prefix line (bytes "#") || has_prefix line (bytes ";")))) [
          | inl skip ↦ rw skip h
          | inr go ↦ rw go (
              plain_line-IsSound (strip_comment line) s
                (cut_at-Lacks (9 ∷ 35 ∷ []) (cut_at (bytes " #") line)
                  (cut_at-Lacks (bytes " #") line clean))
                h)
        ]

  pub parse_lines-IsSound :
      (texts : List Bytes) (s : Parsing)
      → All (Lacks 10) texts
      → IsSound s
      → Ensures IsSound (parse_lines r texts s)
  unfolding parse_lines
  parse_lines-IsSound [] s hl h = h
  parse_lines-IsSound (text ∷ texts) s hl h = elim (Bool-cases (leb 65_536 (length text))) [
    | inl long ↦ rw long tt
    | inr short ↦ rw short (
        Ensures-bind IsSound IsSound (line_step r text s) _ (line_step-IsSound text s hl.0 h)
          (λ s' h'. parse_lines-IsSound texts s' hl.1 h'))
  ]
