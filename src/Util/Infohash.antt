-- ===== src/Util/Infohash.antt =====
-- util.go: `validInfohash`, which keeps a magnet link free of anything but forty hex digits.
use bitlab.Prelude.{
  ℕ, ◌≤◌, ◌≡◌, ◌⊎◌, Bool, true, false, ◌&&◌, ◌||◌, [], ◌∷◌, Bytes, length, ltb, ◌==◌, if◌then◌else◌,
  arith, All, Bool-cases, inl, inr,
}

-- The test on one byte, as the loop negates it.
unfoldable pub is_bad_digit : ℕ → Bool
is_bad_digit c = (ltb c b'0' || ltb b'9' c) && (ltb c b'a' || ltb b'f' c)

unfoldable pub all_digits : Bytes → Bool
unfolding is_bad_digit
all_digits [] = true
all_digits (c ∷ cs) = if is_bad_digit c then false else all_digits cs

-- `validInfohash`.
unfoldable pub valid_infohash : Bytes → Bool
unfolding all_digits
valid_infohash ih = if length ih == 40 then all_digits ih else false

-- A lower-case hexadecimal digit.
abbrev pub IsHexDigit : ℕ → Type 0
IsHexDigit c = ((b'0' ≤ c) × (c ≤ b'9')) ⊎ ((b'a' ≤ c) × (c ≤ b'f'))

all_digits_sound : (cs : Bytes) → all_digits cs ≡ true → All IsHexDigit cs
unfolding all_digits
all_digits_sound [] h = tt
all_digits_sound (c ∷ cs) h = ground (arith, all_digits_sound cs)

-- What `validInfohash` accepts has exactly forty bytes, each a lower-case hexadecimal digit.
pub valid_infohash_sound :
    (ih : Bytes) → valid_infohash ih ≡ true → (length ih ≡ 40) × All IsHexDigit ih
unfolding valid_infohash
valid_infohash_sound ih h = elim (Bool-cases (length ih == 40)) [
  | inl len ↦ (ground arith, all_digits_sound ih (ground arith))
  | inr other ↦ absurd (ground arith)
]

all_digits_complete : (cs : Bytes) → All IsHexDigit cs → all_digits cs ≡ true
unfolding all_digits
all_digits_complete [] h = ground arith
all_digits_complete (c ∷ cs) h = ground (arith, all_digits_complete cs h.1)

-- Forty lower-case hexadecimal digits are accepted.
pub valid_infohash_complete :
    (ih : Bytes) → length ih ≡ 40 → All IsHexDigit ih → valid_infohash ih ≡ true
unfolding valid_infohash
valid_infohash_complete ih len h = ground (arith, all_digits_complete ih h)
