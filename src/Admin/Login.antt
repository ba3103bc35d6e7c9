-- ===== src/Admin/Login.antt =====
-- admin.go: `handleLogin`, as a function on the throttle, the settings and the sessions. The body is
-- `none` where `decodeJSON` refuses it; the name that `sessionName` gives the browser, the random id
-- and the order that SQLite gives the sessions are arguments.
use bitlab.Prelude.{Bool, not, ◌&&◌, [], Option, none, some, Bytes, bytes, bytes_eq, if◌then◌else◌}
use bitlab.Prelude.Int.{ℤ, pos}
use bitlab.Store.Sessions.{Session, Sessions, Settings, get_setting, create_session, prune_sessions}
use bitlab.Prelude.Trim.{trim_space}
use bitlab.Security.SecondFactor.{Codecs, check_second_factor}
use bitlab.Admin.Window.{Hits, blocked, fail, reset}

-- What `handleLogin` reads and writes.
pub record Server : Type 0 where
  pub hits : Hits
  pub settings : Settings
  pub sessions : Sessions

-- The answers of `handleLogin`.
pub data LoginAnswer : Type 0 where
  too_many : LoginAnswer
  bad_body : LoginAnswer
  wrong_password : LoginAnswer
  code_required : LoginAnswer
  wrong_code : LoginAnswer
  store_failed : LoginAnswer
  signed_in : Session → LoginAnswer

-- What a request brings, and what its handling draws from outside.
pub record Request : Type 0 where
  pub ip : Bytes
  pub user_agent : Bytes
  pub name : Bytes
  pub id : Bytes
  pub now : ℤ
  pub written : Bool
  pub body : Option (Bytes × Bytes)

-- `twoFactorEnabled`.
unfoldable pub two_factor_enabled : Settings → Bool
unfolding get_setting bytes_eq
two_factor_enabled s =
    bytes_eq (get_setting (bytes "totp_enabled") [] s) (bytes "1")
    && not (bytes_eq (get_setting (bytes "totp_secret") [] s) [])

module _ (k : Codecs) (sort : Sessions → Sessions) (admin_password : Bytes) where
  -- The end of `handleLogin`: seven days of session, of which fifty are kept.
  unfoldable pub sign_in : Request → Server → LoginAnswer × Server
  unfolding reset create_session prune_sessions
  sign_in r s =
      let (made, sessions) =
        create_session r.id r.name r.ip r.user_agent (pos 604_800_000_000_000) r.now s.sessions in
      let s' : Server = record s { hits = reset r.ip s.hits; sessions = sessions } in
      elim made [
        | none ↦ (store_failed, s')
        | some sess ↦
            (signed_in sess, record s' { sessions = prune_sessions sort 50 r.now sessions })
      ]

  -- What follows the check of a code.
  unfoldable pub after_code : Request → Bool × Settings → Server → LoginAnswer × Server
  unfolding sign_in fail
  after_code r (passed, settings) s =
      let checked : Server = record s { settings = settings } in
      if passed
      then sign_in r checked
      else (wrong_code, record checked { hits = fail r.ip r.now s.hits })

  -- What follows a right password.
  unfoldable pub ask_code : Request → Bytes → Server → LoginAnswer × Server
  unfolding two_factor_enabled trim_space check_second_factor sign_in after_code bytes_eq
  ask_code r code s =
      if not (two_factor_enabled s.settings)
      then sign_in r s
      else if bytes_eq (trim_space code) []
      then (code_required, s)
      else after_code r (check_second_factor k r.written code r.now s.settings) s

  -- `handleLogin`.
  unfoldable pub handle_login : Request → Server → LoginAnswer × Server
  unfolding blocked fail ask_code bytes_eq
  handle_login r s =
      let (is_blocked, hits) = blocked r.ip r.now s.hits in
      let s' : Server = record s { hits = hits } in
      if is_blocked then (too_many, s') else elim r.body [
        | none ↦ (bad_body, s')
        | some (password, code) ↦
            if not (bytes_eq password admin_password)
            then (wrong_password, record s' { hits = fail r.ip r.now hits })
            else ask_code r code s'
      ]
