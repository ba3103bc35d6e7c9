-- ===== src/Admin/SignIn.antt =====
-- Who `handleLogin` signs in (admin.go).
use bitlab.Prelude.{
  ◌≡◌, refl, sym, Bool, true, false, not, ◌||◌, [], some, Bytes, bytes_eq, Bool-cases, inl, inr,
  arith,
}
use mathlib.Core.Path.{subst}
use bitlab.Store.Sessions.{Session, Sessions, Settings}
use bitlab.Prelude.Trim.{trim_space}
use bitlab.Security.SecondFactor.{Codecs, check_second_factor}
use bitlab.Admin.Window.{blocked}
use bitlab.Admin.Login.{
  Server, LoginAnswer, too_many, bad_body, wrong_password, code_required, wrong_code, store_failed,
  signed_in, Request, two_factor_enabled, after_code, ask_code, handle_login,
}

-- A condition that holds where the answer is a session.
abbrev Signed : Type 0 → LoginAnswer → Type 0
Signed P too_many = Unit
Signed P bad_body = Unit
Signed P wrong_password = Unit
Signed P code_required = Unit
Signed P wrong_code = Unit
Signed P store_failed = Unit
Signed P (signed_in sess) = P

always_Signed : (P : Type 0) (a : LoginAnswer) → P → Signed P a
always_Signed P too_many p = tt
always_Signed P bad_body p = tt
always_Signed P wrong_password p = tt
always_Signed P code_required p = tt
always_Signed P wrong_code p = tt
always_Signed P store_failed p = tt
always_Signed P (signed_in sess) p = p

module _ (k : Codecs) (sort : Sessions → Sessions) (admin_password : Bytes) where
  -- The second factor is off, or the code passes it.
  abbrev pub passes : Request → Bytes → Settings → Bool
  passes r code s = not (two_factor_enabled s) || (check_second_factor k r.written code r.now s).0

  off_passes :
      (r : Request) (code : Bytes) (s : Settings)
      → not (two_factor_enabled s) ≡ true
      → passes r code s ≡ true
  off_passes r code s h = rw h refl

  code_passes :
      (r : Request) (code : Bytes) (s : Settings)
      → (check_second_factor k r.written code r.now s).0 ≡ true
      → passes r code s ≡ true
  code_passes r code s h = ground (arith, h)

  ask_code_text :
      (r : Request) (code : Bytes) (s : Server)
      → not (two_factor_enabled s.settings) ≡ false
      → bytes_eq (trim_space code) [] ≡ false
      → ask_code k sort admin_password r code s
        ≡ after_code k sort admin_password r
            (check_second_factor k r.written code r.now s.settings)
            s
  unfolding ask_code
  ask_code_text r code s on text = rw (on, text) refl

  after_code-Signed :
      (r : Request) (c : Bool × Settings) (s : Server) (P : Type 0)
      → (c.0 ≡ true → P)
      → Signed P (after_code k sort admin_password r c s).0
  unfolding after_code
  after_code-Signed r (true, settings) s P ok = always_Signed P _ (ok refl)
  after_code-Signed r (false, settings) s P ok = tt

  ask_code-Signed :
      (r : Request) (code : Bytes) (s : Server) (P : Type 0)
      → (passes r code s.settings ≡ true → P)
      → Signed P (ask_code k sort admin_password r code s).0
  unfolding ask_code
  ask_code-Signed r code s P ok = elim (Bool-cases (not (two_factor_enabled s.settings))) [
    | inl off ↦ rw off (always_Signed P _ (ok (off_passes r code s.settings off)))
    | inr on ↦ elim (Bool-cases (bytes_eq (trim_space code) [])) [
      | inl blank ↦ rw (on, blank) tt
      | inr text ↦
          subst (λ a. Signed P a.0) (sym (ask_code_text r code s on text))
            (after_code-Signed r (check_second_factor k r.written code r.now s.settings) s P
              (λ pass. ok (code_passes r code s.settings pass)))
    ]
  ]

  login-Signed :
      (r : Request) (s : Server) (password code : Bytes)
      → r.body ≡ some (password, code)
      → Signed
          (((blocked r.ip r.now s.hits).0 ≡ false)
            × (bytes_eq password admin_password ≡ true)
            × (passes r code s.settings ≡ true))
          (handle_login k sort admin_password r s).0
  unfolding handle_login
  login-Signed r s password code h = elim (Bool-cases (blocked r.ip r.now s.hits).0) [
    | inl closed ↦ rw (handle_login, closed) tt
    | inr open_door ↦ elim (Bool-cases (bytes_eq password admin_password)) [
      | inl right ↦
          rw (handle_login, open_door, h, right)
            (ask_code-Signed r code (record s { hits = (blocked r.ip r.now s.hits).1 }) _
              (λ p. (refl, refl, p)))
      | inr wrong ↦ rw (handle_login, open_door, h, wrong) tt
    ]
  ]

  -- Where handleLogin signs a request in, whose body brought a password and a code: its address was
  -- not blocked, the password is that of the configuration, and the second factor is off or the code
  -- passes it.
  pub handle_login-Signed :
      (r : Request) (s : Server) (password code : Bytes) (sess : Session)
      → r.body ≡ some (password, code)
      → (handle_login k sort admin_password r s).0 ≡ signed_in sess
      → ((blocked r.ip r.now s.hits).0 ≡ false)
        × (bytes_eq password admin_password ≡ true)
        × (passes r code s.settings ≡ true)
  handle_login-Signed r s password code sess h answer =
      subst (Signed _) answer (login-Signed r s password code h)
