-- ===== src/Addon/Auth.antt =====
-- addon.go: `authKey`, over the keys table of the store. An error of the database, which answers 500,
-- is left out as in the store.
use bitlab.Prelude.{ℕ, Bytes, bytes_eq, [], if◌then◌else◌}
use bitlab.Prelude.Int.{ℤ}
use bitlab.Store.Keys.{
  Key, Keys, Resolved, found, key_not_found, key_paused, key_expired, key_by_token, touch_key,
}

-- The answer: the key, or an HTTP error with its code.
pub data Auth : Type 0 where
  authorized : Key → Auth
  http_error : ℕ → Auth

unfoldable pub auth_outcome : ℤ → Resolved × Keys → Auth × Keys
unfolding touch_key
auth_outcome now (found k, ks) = (authorized k, touch_key k.id now ks)
auth_outcome now (key_not_found, ks) = (http_error 401, ks)
auth_outcome now (key_paused k, ks) = (http_error 403, ks)
auth_outcome now (key_expired k, ks) = (http_error 410, ks)

-- `authKey`.
unfoldable pub auth_key : Bytes → ℤ → Keys → Auth × Keys
unfolding auth_outcome key_by_token bytes_eq
auth_key token now ks =
    if bytes_eq token [] then (http_error 401, ks) else auth_outcome now (key_by_token token now ks)
