-- ===== src/Security/Totp.antt =====
-- security.go: `totpCode` and `verifyTOTPStep`. The decoding of the secret and the HMAC of SHA-1 are
-- parameters.
use bitlab.Prelude.{
  ℕ, suc, ◌+◌, ◌-◌, ◌*◌, ◌/◌, ◌%◌, ◌^◌, ◌==◌, List, [], ◌∷◌, Option, none, some, Bytes, bytes_eq,
  if◌then◌else◌, get_or, length,
}
use bitlab.Prelude.Int.{ℤ, pos, negsuc, ◌+ℤ◌}
use bitlab.Store.Keys.{unix}
use bitlab.Prelude.Trim.{trim_space}

-- Go's `t.Unix() / totpPeriod`, which rounds towards zero.
unfoldable pub step_of : ℤ → ℤ
unfolding unix
step_of now = truncate (unix now)
  where
    truncate : ℤ → ℤ
    truncate (pos n) = pos (n / 30)
    truncate (negsuc n) = if suc n / 30 == 0 then pos 0 else negsuc (suc n / 30 - 1)

-- `uint64(…)`.
abbrev word : ℤ → ℕ
word (pos n) = n % 2 ^ 64
word (negsuc n) = 2 ^ 64 - 1 - n % 2 ^ 64

-- `binary.BigEndian.PutUint64`.
abbrev big_endian : ℕ → Bytes
big_endian w =
    w / 2 ^ 56 % 256
    ∷ w / 2 ^ 48 % 256
    ∷ w / 2 ^ 40 % 256
    ∷ w / 2 ^ 32 % 256
    ∷ w / 2 ^ 24 % 256
    ∷ w / 2 ^ 16 % 256
    ∷ w / 2 ^ 8 % 256
    ∷ w % 256
    ∷ []

-- The dynamic truncation of RFC 4226.
abbrev truncated : Bytes → ℕ
truncated sum =
    let off = get_or sum (length sum - 1) 0 % 16 in
    get_or sum off 0 % 128 * 2 ^ 24
    + get_or sum (off + 1) 0 * 2 ^ 16
    + get_or sum (off + 2) 0 * 2 ^ 8
    + get_or sum (off + 3) 0

-- `%06d`, of a number below a million.
abbrev six_digits : ℕ → Bytes
six_digits n =
    (48 + n / 100_000 % 10)
    ∷ (48 + n / 10_000 % 10)
    ∷ (48 + n / 1_000 % 10)
    ∷ (48 + n / 100 % 10)
    ∷ (48 + n / 10 % 10)
    ∷ (48 + n % 10)
    ∷ []

-- `time.Duration(i)*totpPeriod*time.Second` for the steps of the window, with the steps.
abbrev pub window : List (ℤ × ℤ)
window = (negsuc 0, negsuc 29_999_999_999) ∷ (pos 0, pos 0) ∷ (pos 1, pos 30_000_000_000) ∷ []

module _ (key_of : Bytes → Option Bytes) (mac : Bytes → Bytes → Bytes) where
  -- `totpCode`.
  unfoldable pub totp_code : Bytes → ℤ → Option Bytes
  unfolding step_of
  totp_code secret now = elim (key_of secret) [
    | none ↦ none
    | some key ↦
        some (six_digits (truncated (mac key (big_endian (word (step_of now)))) % 1_000_000))
  ]

  -- The loop of `verifyTOTPStep`.
  unfoldable pub try_steps : Bytes → Bytes → ℤ → List (ℤ × ℤ) → Option ℤ
  unfolding totp_code step_of bytes_eq ◌+ℤ◌
  try_steps secret code now [] = none
  try_steps secret code now ((i, shift) ∷ steps) =
      let rest = try_steps secret code now steps in
      elim (totp_code secret (now +ℤ shift)) [
        | none ↦ none
        | some want ↦ if bytes_eq want code then some (step_of now +ℤ i) else rest
      ]

  -- `verifyTOTPStep`.
  unfoldable pub verify_totp_step : Bytes → Bytes → ℤ → Option ℤ
  unfolding try_steps trim_space bytes_eq
  verify_totp_step secret code now =
      if bytes_eq (trim_space secret) []
      then none
      else (if length (trim_space code) == 6
          then try_steps secret (trim_space code) now window
          else none)
