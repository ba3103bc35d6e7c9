-- ===== src/Security/OneUse.antt =====
-- The step that `checkSecondFactor` remembers (security.go).
use bitlab.Prelude.{
  ◌≡◌, refl, sym, ap, ◌∙◌, Bool, true, false, [], none, some, Bytes, bytes, bytes_eq, Bool-cases,
  Option-cases, inl, inr, arith, ltb, length, keep_if, not, ◌==◌,
}
use mathlib.Core.Path.{subst}
use mathlib.Core.Bool.{false≢true}
use bitlab.Prelude.Int.{ℤ, leb_ℤ, ◌≤ℤ◌, InInt64}
use bitlab.Prelude.Assoc.{insert, lookup-insert_self}
use bitlab.Store.Sessions.{Settings, get_setting, set_setting}
use bitlab.Prelude.Trim.{trim_space}
use bitlab.Security.SecondFactor.{
  Codecs, last_step, accept_step, accept_recovery, step_of_code, check_second_factor, spend,
  hash_recovery_code, recovery_hashes,
}

-- `strconv`: an int64 is read back from its decimal form.
abbrev pub ReadsBack : Codecs → Type 0
ReadsBack k = (z : ℤ) → InInt64 z → k.parse_int (k.format_int z) ≡ z

pub get_setting-insert :
    (key def v : Bytes) (s : Settings) → get_setting key def (insert key v s) ≡ v
unfolding get_setting
get_setting-insert key def v s = rw (lookup-insert_self key v s, get_setting) refl

module _ (k : Codecs) where
  pub check_empty :
      (written : Bool) (code : Bytes) (now : ℤ) (s : Settings)
      → bytes_eq (trim_space code) [] ≡ true
      → check_second_factor k written code now s ≡ (false, s)
  unfolding check_second_factor
  check_empty written code now s h = rw h refl

  check_step :
      (written : Bool) (code : Bytes) (now : ℤ) (s : Settings) (step : ℤ)
      → bytes_eq (trim_space code) [] ≡ false
      → step_of_code k (trim_space code) now s ≡ some step
      → check_second_factor k written code now s ≡ accept_step k written step s
  unfolding check_second_factor
  check_step written code now s step h e = rw (h, e, check_second_factor) refl

  pub check_recovery :
      (written : Bool) (code : Bytes) (now : ℤ) (s : Settings)
      → bytes_eq (trim_space code) [] ≡ false
      → step_of_code k (trim_space code) now s ≡ none
      → check_second_factor k written code now s ≡ accept_recovery k written (trim_space code) s
  unfolding check_second_factor
  check_recovery written code now s h e = rw (h, e, check_second_factor) refl

  accept_step_old :
      (written : Bool) (step : ℤ) (s : Settings)
      → leb_ℤ step (last_step k s) ≡ true
      → accept_step k written step s ≡ (false, s)
  unfolding accept_step
  accept_step_old written step s h = rw h refl

  accept_step_new :
      (written : Bool) (step : ℤ) (s : Settings)
      → leb_ℤ step (last_step k s) ≡ false
      → accept_step k written step s
        ≡ set_setting written (bytes "totp_last_step") (k.format_int step) s
  unfolding accept_step
  accept_step_new written step s h = rw h refl

  written_step :
      (written : Bool) (step : ℤ) (s s' : Settings)
      → ReadsBack k
      → InInt64 step
      → set_setting written (bytes "totp_last_step") (k.format_int step) s ≡ (true, s')
      → last_step k s' ≡ step
  unfolding set_setting last_step
  written_step true step s s' reads_back fits h =
      subst (λ z. last_step k z ≡ step) (ap (λ r. r.1) h)
        (ap k.parse_int
            (get_setting-insert (bytes "totp_last_step") (bytes "0") (k.format_int step) s)
          ∙ reads_back step fits)
  written_step false step s s' reads_back fits h = absurd (false≢true (ap (λ r. r.0) h))

  -- Where a code of a step is accepted, that step is the last one from then on.
  accepted-last_step :
      (written : Bool) (step : ℤ) (s s' : Settings)
      → ReadsBack k
      → InInt64 step
      → accept_step k written step s ≡ (true, s')
      → last_step k s' ≡ step
  accepted-last_step written step s s' reads_back fits h =
      elim (Bool-cases (leb_ℤ step (last_step k s))) [
        | inl old ↦ absurd (
            false≢true (sym (ap (λ r. r.0) (accept_step_old written step s old)) ∙ ap (λ r. r.0) h))
        | inr fresh ↦
            written_step written step s s' reads_back fits
              (sym (accept_step_new written step s fresh) ∙ h)
      ]

  -- Where a code of the window is accepted, and `strconv` reads an int64 back: from the table that
  -- this leaves, every code of that step or an earlier one is refused, at any time, and nothing is
  -- written.
  pub check_second_factor_once :
      (written again : Bool) (code other : Bytes) (now later : ℤ) (s s' : Settings) (step old : ℤ)
      → ReadsBack k
      → InInt64 step
      → step_of_code k (trim_space code) now s ≡ some step
      → check_second_factor k written code now s ≡ (true, s')
      → step_of_code k (trim_space other) later s' ≡ some old
      → old ≤ℤ step
      → check_second_factor k again other later s' ≡ (false, s')
  check_second_factor_once written again code other now later s s' step old reads_back fits first
        passed second le =
      elim (Bool-cases (bytes_eq (trim_space other) [])) [
        | inl blank ↦ check_empty again other later s' blank
        | inr text ↦
            check_step again other later s' old text second
            ∙ accept_step_old again old s' (rw last (ground (arith, le)))
      ]
    where
      accepted : accept_step k written step s ≡ (true, s')
      accepted = elim (Bool-cases (bytes_eq (trim_space code) [])) [
        | inl blank ↦ absurd (
            false≢true
              (sym (ap (λ r. r.0) (check_empty written code now s blank)) ∙ ap (λ r. r.0) passed))
        | inr text ↦ sym (check_step written code now s step text first) ∙ passed
      ]

      last : last_step k s' ≡ step
      last = accepted-last_step written step s s' reads_back fits accepted

  refused_step : (step : ℤ) (s : Settings) → accept_step k false step s ≡ (false, s)
  unfolding set_setting
  refused_step step s = elim (Bool-cases (leb_ℤ step (last_step k s))) [
    | inl old ↦ accept_step_old false step s old
    | inr fresh ↦ accept_step_new false step s fresh
  ]

  refused_recovery : (code : Bytes) (s : Settings) → accept_recovery k false code s ≡ (false, s)
  unfolding accept_recovery set_setting
  refused_recovery code s =
      elim (Bool-cases
        (ltb (length (keep_if (λ b. not (b == 45)) (k.upper (trim_space code)))) 8)) [
          | inl short ↦ rw short refl
          | inr long ↦
              elim (Option-cases
                (spend (hash_recovery_code k (k.upper (trim_space code))) (recovery_hashes k s))) [
                  | inl unknown ↦ rw (long, unknown) refl
                  | inr (left, known) ↦ rw (long, known) refl
                ]
        ]

  -- Where the database does not take the write, no code is accepted, and the settings stay.
  pub check_second_factor_closed :
      (code : Bytes) (now : ℤ) (s : Settings) → check_second_factor k false code now s ≡ (false, s)
  check_second_factor_closed code now s = elim (Bool-cases (bytes_eq (trim_space code) [])) [
    | inl blank ↦ check_empty false code now s blank
    | inr text ↦ elim (Option-cases (step_of_code k (trim_space code) now s)) [
      | inl other ↦
          check_recovery false code now s text other ∙ refused_recovery (trim_space code) s
      | inr (step, known) ↦ check_step false code now s step text known ∙ refused_step step s
    ]
  ]
