-- ===== src/Security/SecondFactor.antt =====
-- security.go: `checkSecondFactor`. What it takes from elsewhere is in `Codecs`: the decoding of the
-- secret, the HMAC, the digest of a recovery code in hexadecimal, `strings.ToUpper`, the decimal form
-- of an int64 and the JSON form of a list of texts.
use bitlab.Prelude.{
  ℕ, ◌==◌, Bool, false, ◌&&◌, ◌||◌, not, List, [], ◌∷◌, Option, none, some, Bytes, bytes, bytes_eq,
  if◌then◌else◌, keep_if, leb, ltb, length,
}
use bitlab.Prelude.Int.{ℤ, leb_ℤ}
use bitlab.Store.Sessions.{Settings, get_setting, set_setting}
use bitlab.Prelude.Trim.{trim_space}
use bitlab.Security.Totp.{verify_totp_step}

pub record Codecs : Type 0 where
  pub key_of : Bytes → Option Bytes
  pub mac : Bytes → Bytes → Bytes
  pub digest : Bytes → Bytes
  pub upper : Bytes → Bytes
  pub parse_int : Bytes → ℤ
  pub format_int : ℤ → Bytes
  pub decode_list : Bytes → List Bytes
  pub encode_list : List Bytes → Bytes

-- The bytes that `hashRecoveryCode` keeps.
unfoldable pub is_code_byte : ℕ → Bool
is_code_byte b = (leb 65 b && leb b 90) || (leb 48 b && leb b 57)

-- The list without the first entry that is equal, or `none`.
unfoldable pub spend : Bytes → List Bytes → Option (List Bytes)
unfolding bytes_eq
spend want [] = none
spend want (h ∷ hashes) =
    let rest = spend want hashes in
    if bytes_eq h want then some hashes else elim rest [ none ↦ none | some left ↦ some (h ∷ left) ]

module _ (k : Codecs) where
  -- `hashRecoveryCode`; the letters kept are capitals already.
  unfoldable pub hash_recovery_code : Bytes → Bytes
  unfolding is_code_byte
  hash_recovery_code code = k.digest (keep_if is_code_byte code)

  -- `strconv.ParseInt` of the step accepted last.
  unfoldable pub last_step : Settings → ℤ
  unfolding get_setting
  last_step s = k.parse_int (get_setting (bytes "totp_last_step") (bytes "0") s)

  -- `recoveryHashes`.
  unfoldable pub recovery_hashes : Settings → List Bytes
  unfolding get_setting
  recovery_hashes s = k.decode_list (get_setting (bytes "totp_recovery") (bytes "[]") s)

  -- What follows a code of the given step.
  unfoldable pub accept_step : Bool → ℤ → Settings → Bool × Settings
  unfolding last_step set_setting
  accept_step written step s =
      if leb_ℤ step (last_step s)
      then (false, s)
      else set_setting written (bytes "totp_last_step") (k.format_int step) s

  -- What follows where the code is not one of the window.
  unfoldable pub accept_recovery : Bool → Bytes → Settings → Bool × Settings
  unfolding hash_recovery_code recovery_hashes spend set_setting trim_space
  accept_recovery written code s =
      let norm = k.upper (trim_space code) in
      if ltb (length (keep_if (λ b. not (b == 45)) norm)) 8
      then (false, s)
      else elim (spend (hash_recovery_code norm) (recovery_hashes s)) [
        | none ↦ (false, s)
        | some left ↦ set_setting written (bytes "totp_recovery") (k.encode_list left) s
      ]

  -- The step of a code, for the secret that is stored.
  unfoldable pub step_of_code : Bytes → ℤ → Settings → Option ℤ
  unfolding verify_totp_step get_setting
  step_of_code code now s =
      verify_totp_step k.key_of k.mac (get_setting (bytes "totp_secret") [] s) code now

  -- `checkSecondFactor`; `written` tells whether the database takes a write.
  unfoldable pub check_second_factor : Bool → Bytes → ℤ → Settings → Bool × Settings
  unfolding trim_space step_of_code accept_step accept_recovery bytes_eq
  check_second_factor written code now s =
      if bytes_eq (trim_space code) []
      then (false, s)
      else elim (step_of_code (trim_space code) now s) [
        | some step ↦ accept_step written step s
        | none ↦ accept_recovery written (trim_space code) s
      ]
