-- ===== src/Admin/SignInTests.antt =====
-- `handleLogin` of admin.go on a fresh server without a second factor.
use bitlab.Prelude.{◌≡◌, refl, true, false, [], none, some, bytes, bytes_eq}
use bitlab.Prelude.Int.{pos, ◌+ℤ◌, ◌-ℤ◌}
use bitlab.Prelude.Assoc.{lookup, erase}
use bitlab.Store.Keys.{unix}
use bitlab.Store.Sessions.{
  Session, get_setting, create_session, prune_sessions, new_session, drop_expired,
}
use bitlab.Security.SecondFactor.{Codecs}
use bitlab.Admin.Window.{blocked, hits_of, recent, reset, cut_of}
use bitlab.Admin.Login.{
  Server, Request, signed_in, two_factor_enabled, sign_in, ask_code, handle_login,
}
use bitlab.Admin.SignIn.{passes, handle_login-Signed}

-- Codecs that no step here reads.
abbrev unused : Codecs
unused = record {
  key_of = λ secret. none;
  mac = λ key message. [];
  digest = λ text. text;
  upper = λ text. text;
  parse_int = λ text. pos 0;
  format_int = λ z. [];
  decode_list = λ text. [];
  encode_list = λ texts. [];
}

abbrev fresh : Server
fresh = record { hits = []; settings = []; sessions = [] }

abbrev request : Request
request = record {
  ip = bytes "10.0.0.1";
  user_agent = bytes "Firefox";
  name = bytes "Firefox";
  id = bytes "aa";
  now = pos 1_000_000_000;
  written = true;
  body = some (bytes "pw", []);
}

abbrev session : Session
session = record {
  id = bytes "aa";
  name = bytes "Firefox";
  ip = bytes "10.0.0.1";
  ua = bytes "Firefox";
  created_at = pos 1;
  last_seen = pos 1;
  expires_at = pos 604_801;
}

signs_in : (handle_login unused (λ rows. rows) (bytes "pw") request fresh).0 ≡ signed_in session
unfolding handle_login ask_code sign_in two_factor_enabled blocked hits_of recent reset cut_of
    lookup erase get_setting create_session new_session prune_sessions drop_expired unix bytes_eq
    ◌+ℤ◌ ◌-ℤ◌
signs_in = refl

handle_login-Signed_example :
    ((blocked (bytes "10.0.0.1") (pos 1_000_000_000) []).0 ≡ false)
    × (bytes_eq (bytes "pw") (bytes "pw") ≡ true)
    × (passes unused (λ rows. rows) (bytes "pw") request [] [] ≡ true)
handle_login-Signed_example =
    handle_login-Signed unused (λ rows. rows) (bytes "pw") request fresh (bytes "pw") [] session
      refl signs_in
