-- ===== src/PortMux/Replay.antt =====
-- The bytes that `sniff` has read, and those that `dispatch` hands over (portmux.go).
use bitlab.Prelude.{
  ℕ, zero, suc, ◌≡◌, refl, ◌==◌, Bool, true, ◌||◌, inl, inr, [], ◌∷◌, ◌++◌, none, some, Bytes,
  length, leb, not, Bool-cases,
}
use mathlib.Core.Path.{subst}
use mathlib.Core.List.{append_assoc}
use bitlab.PortMux.Sniff.{
  Side, http, torrent, is_method, is_possible, Sniffed, match_methods, read_handshake, sniff,
  Dispatched, closed, handed, hand_over, dispatch, protocol_length,
}

-- What is known of an answer for the connection `c`: no byte is lost, and an HTTP answer has read
-- exactly a method.
abbrev pub IsRight : Bytes → Side × Bytes × Bytes → Type 0
IsRight c (http, buf, rest) = (buf ++ rest ≡ c) × (is_method buf ≡ true)
IsRight c (torrent, buf, rest) = buf ++ rest ≡ c

abbrev pub AllSniffed : (Side × Bytes × Bytes → Type 0) → Sniffed → Type 0
AllSniffed P none = Unit
AllSniffed P (some r) = P r

match_methods-IsRight :
    (buf rest : Bytes) → AllSniffed (IsRight (buf ++ rest)) (match_methods buf rest)
unfolding match_methods
match_methods-IsRight buf [] = elim (Bool-cases (is_method buf)) [
  | inl m ↦ rw m (refl, m)
  | inr n ↦ elim (Bool-cases (not (is_possible buf) || leb 8 (length buf))) [
    | inl stop ↦ rw (n, stop) refl
    | inr go ↦ rw (n, go) tt
  ]
]
match_methods-IsRight buf (b ∷ rest) = elim (Bool-cases (is_method buf)) [
  | inl m ↦ rw m (refl, m)
  | inr n ↦ elim (Bool-cases (not (is_possible buf) || leb 8 (length buf))) [
    | inl stop ↦ rw (n, stop) refl
    | inr go ↦
        rw (n, go)
          (subst (λ c. AllSniffed (IsRight c) (match_methods (buf ++ b ∷ []) rest))
            (append_assoc buf (b ∷ []) rest) (match_methods-IsRight (buf ++ b ∷ []) rest))
  ]
]

read_handshake-IsRight :
    (n : ℕ) (buf rest : Bytes) → AllSniffed (IsRight (buf ++ rest)) (read_handshake n buf rest)
unfolding read_handshake
read_handshake-IsRight zero buf rest = refl
read_handshake-IsRight (suc n) buf [] = tt
read_handshake-IsRight (suc n) buf (b ∷ rest) =
    subst (λ c. AllSniffed (IsRight c) (read_handshake n (buf ++ b ∷ []) rest))
      (append_assoc buf (b ∷ []) rest) (read_handshake-IsRight n (buf ++ b ∷ []) rest)

pub sniff-IsRight : (c : Bytes) → AllSniffed (IsRight c) (sniff c)
unfolding sniff
sniff-IsRight [] = tt
sniff-IsRight (b ∷ rest) = elim (Bool-cases (b == protocol_length)) [
  | inl t ↦ rw t (read_handshake-IsRight protocol_length (b ∷ []) rest)
  | inr h ↦ rw h (match_methods-IsRight (b ∷ []) rest)
]

-- A side that takes the connection `c` reads its bytes.
abbrev Replays : Bytes → Dispatched → Type 0
Replays c closed = Unit
Replays c (handed side stream) = stream ≡ c

hand_over-Replays :
    (takes : Side → Bool) (c : Bytes) (r : Sniffed)
    → AllSniffed (IsRight c) r
    → Replays c (hand_over takes r)
unfolding hand_over
hand_over-Replays takes c none right = tt
hand_over-Replays takes c (some (http, buf, rest)) right = elim (Bool-cases (takes http)) [
  | inl t ↦ rw t right.0
  | inr f ↦ rw f tt
]
hand_over-Replays takes c (some (torrent, buf, rest)) right = elim (Bool-cases (takes torrent)) [
  | inl t ↦ rw t right
  | inr f ↦ rw f tt
]

-- The side that takes a connection reads exactly the bytes that the connection brought.
pub dispatch_replays :
    (takes : Side → Bool) (c : Bytes) (side : Side) (stream : Bytes)
    → dispatch takes c ≡ handed side stream
    → stream ≡ c
unfolding dispatch
dispatch_replays takes c side stream h =
    subst (Replays c) h (hand_over-Replays takes c (sniff c) (sniff-IsRight c))
