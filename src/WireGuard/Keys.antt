-- ===== src/WireGuard/Keys.antt =====
-- The keys that `parseKey` gives (wireguard.go).
use bitlab.Prelude.{
  ℕ, suc, ◌+◌, ◌/◌, ◌%◌, ◌≡◌, ◌<◌, refl, ap, ◌∙◌, ◌==◌, inl, inr, true, false, ◌&&◌, ◌||◌, [], ◌∷◌,
  Bytes, leb, length, All, Bool-cases, Option-cases, &&_true, ==_iff, arith,
}
use bitlab.Prelude.Members.{All-mono, Whenever}
use bitlab.Prelude.Trim.{trim_space}
use bitlab.Prelude.Search.{to_lower, lower_byte}
use bitlab.Prelude.Lines.{Lacks}
use bitlab.WireGuard.Config.{
  Resolver, is_hex, all_hex, hex_digit, hex_encode, decode_key, parse_key,
}

abbrev pub IsLowerHex : ℕ → Type 0
IsLowerHex b = (leb 48 b && leb b 57) || (leb 97 b && leb b 102) ≡ true

-- 32 bytes in hexadecimal.
abbrev pub IsKey : Bytes → Type 0
IsKey k = (length k ≡ 64) × All IsLowerHex k

pub IsKey-Lacks : (c : ℕ) (k : Bytes) → c < 48 → All IsLowerHex k → Lacks c k
IsKey-Lacks c k low h = All-mono IsLowerHex (λ b. (b == c) ≡ false) k (λ b hex. ground arith) h

hex_digit-IsLowerHex : (n : ℕ) → n < 16 → IsLowerHex (hex_digit n)
unfolding hex_digit
hex_digit-IsLowerHex n h = ground arith

hex_encode-IsLowerHex : (s : Bytes) → All IsLowerHex (hex_encode s)
unfolding hex_encode
hex_encode-IsLowerHex [] = tt
hex_encode-IsLowerHex (b ∷ s) = (
  hex_digit-IsLowerHex (b / 16 % 16) (omega arith),
  (hex_digit-IsLowerHex (b % 16) (omega arith), hex_encode-IsLowerHex s),
)

length-hex_encode : (s : Bytes) → length (hex_encode s) ≡ length s + length s
unfolding hex_encode
length-hex_encode [] = omega arith
length-hex_encode (b ∷ s) = omega (arith, length-hex_encode s)

lower_byte-IsLowerHex : (b : ℕ) → is_hex b ≡ true → IsLowerHex (lower_byte b)
unfolding lower_byte is_hex
lower_byte-IsLowerHex b h = ground arith

hex_is_ascii : (b : ℕ) → is_hex b ≡ true → ((b == 226) ≡ false) × ((b == 196) ≡ false)
unfolding is_hex
hex_is_ascii b h = (ground arith, ground arith)

all_hex-cons : (b : ℕ) (s : Bytes) → all_hex (b ∷ s) ≡ true → (is_hex b ≡ true) × (all_hex s ≡ true)
unfolding all_hex
all_hex-cons b s h = &&_true _ _ h

-- On hexadecimal text no rune beyond ASCII is met.
to_lower_hex :
    (s : Bytes) → all_hex s ≡ true → (length (to_lower s) ≡ length s) × All IsLowerHex (to_lower s)
unfolding to_lower
to_lower_hex [] h = (refl, tt)
to_lower_hex (a ∷ []) h = (refl, (lower_byte-IsLowerHex a (all_hex-cons a [] h).0, tt))
to_lower_hex (a ∷ b ∷ []) h =
    let (ha, rest) = all_hex-cons a (b ∷ []) h in
    let (hb, none_left) = all_hex-cons b [] rest in
    rw ((hex_is_ascii a ha).1)
      (refl, (lower_byte-IsLowerHex a ha, (lower_byte-IsLowerHex b hb, tt)))
to_lower_hex (a ∷ b ∷ c ∷ s) h =
    let (ha, rest) = all_hex-cons a (b ∷ c ∷ s) h in
    let (same, low) = to_lower_hex (b ∷ c ∷ s) rest in
    rw ((hex_is_ascii a ha).0, (hex_is_ascii a ha).1)
      (ap suc same, (lower_byte-IsLowerHex a ha, low))

decode_key-IsKey : (r : Resolver) (s : Bytes) → Whenever IsKey (decode_key r s)
unfolding decode_key
decode_key-IsKey r s = elim (Option-cases (r.base64_decode s)) [
  | inl bad ↦ rw (bad, decode_key) tt
  | inr (b, good) ↦ elim (Bool-cases (length b == 32)) [
    | inl full ↦
        rw (good, decode_key, full)
          (
            length-hex_encode b ∙ sixty_four ((==_iff (length b) 32).0 full),
            hex_encode-IsLowerHex b,
          )
    | inr short ↦ rw (good, decode_key, short) tt
  ]
]
  where
    sixty_four : {n : ℕ} → n ≡ 32 → n + n ≡ 64
    sixty_four {n} e = omega arith

-- What `parseKey` gives is 32 bytes in lower-case hexadecimal.
pub parse_key-IsKey : (r : Resolver) (raw : Bytes) → Whenever IsKey (parse_key r raw)
unfolding parse_key
parse_key-IsKey r raw =
    let s = trim_space raw in
    elim (Bool-cases (length s == 64 && all_hex s)) [
      | inl hex ↦
          let (long, digits) = &&_true _ _ hex in
          let (same, low) = to_lower_hex s digits in
          rw hex (same ∙ (==_iff (length s) 64).0 long, low)
      | inr other ↦ rw other (decode_key-IsKey r s)
    ]
