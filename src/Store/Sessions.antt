-- ===== src/Store/Sessions.antt =====
-- store.go: the `sessions` table and its operations, and the `settings` table. Each statement of
-- the source is a function on the rows; `randHex` is an argument.
use bitlab.Prelude.{
  ℕ, ◌-◌, Bool, true, false, List, [], ◌∷◌, ◌++◌, Option, none, some, Bytes, bytes_eq,
  if◌then◌else◌, keep_if, length, ltb, not, any, take,
}
use bitlab.Prelude.Int.{ℤ, negsuc, ◌+ℤ◌, ltb_ℤ}
use bitlab.Prelude.Assoc.{Assoc, lookup, insert, erase}
use bitlab.Store.Keys.{unix}

-- `Session`.
pub record Session : Type 0 where
  pub id : Bytes
  pub name : Bytes
  pub ip : Bytes
  pub ua : Bytes
  pub created_at : ℤ
  pub last_seen : ℤ
  pub expires_at : ℤ

abbrev pub Sessions : Type 0
Sessions = List Session

-- `SELECT … WHERE id=?`.
unfoldable pub session_by_id : Bytes → Sessions → Option Session
session_by_id id [] = none
session_by_id id (s ∷ ss) = if bytes_eq s.id id then some s else session_by_id id ss

-- `DELETE FROM sessions WHERE expires_at<?`.
unfoldable pub drop_expired : ℤ → Sessions → Sessions
unfolding unix
drop_expired now ss = keep_if (λ s. not (ltb_ℤ s.expires_at (unix now))) ss

-- The row that `CreateSession` inserts.
unfoldable pub new_session : Bytes → Bytes → Bytes → Bytes → ℤ → ℤ → Session
unfolding unix ◌+ℤ◌
new_session id name ip ua ttl now = record {
  id = id;
  name = name;
  ip = ip;
  ua = ua;
  created_at = unix now;
  last_seen = unix now;
  expires_at = unix (now +ℤ ttl);
}

-- `CreateSession`; the insertion fails on an id that is taken.
unfoldable pub create_session :
    Bytes → Bytes → Bytes → Bytes → ℤ → ℤ → Sessions → Option Session × Sessions
unfolding new_session drop_expired
create_session id name ip ua ttl now ss =
    let s = new_session id name ip ua ttl now in
    if any (λ j. bytes_eq j.id id) ss then (none, ss) else (some s, drop_expired now (ss ++ s ∷ []))

-- `DeleteSession`.
unfoldable pub delete_session : Bytes → Sessions → Sessions
delete_session id ss = keep_if (λ s. not (bytes_eq s.id id)) ss

-- The end of `GetSession`, for the row that it has read.
unfoldable pub admit : Bytes → ℤ → Session → Sessions → Option Session × Sessions
unfolding unix delete_session
admit id now s ss =
    if ltb_ℤ s.expires_at (unix now) then (none, delete_session id ss) else (some s, ss)

-- `GetSession`.
unfoldable pub get_session : Bytes → ℤ → Sessions → Option Session × Sessions
unfolding session_by_id admit
get_session id now ss = elim (session_by_id id ss) [
  | none ↦ (none, ss)
  | some s ↦ admit id now s ss
]

-- `UPDATE sessions SET last_seen_at=? WHERE id=? AND last_seen_at<?`.
unfoldable pub touch_session : Bytes → ℤ → Sessions → Sessions
unfolding unix ◌+ℤ◌
touch_session id now [] = []
touch_session id now (s ∷ ss) =
    let rest = touch_session id now ss in
    if bytes_eq s.id id
    then (if ltb_ℤ s.last_seen (unix (now +ℤ negsuc 59_999_999_999))
        then record s { last_seen = unix now } ∷ rest
        else s ∷ rest)
    else s ∷ rest

-- `DeleteOtherSessions`.
unfoldable pub delete_other_sessions : Bytes → Sessions → Sessions
delete_other_sessions id ss = keep_if (λ s. bytes_eq s.id id) ss

-- `PruneSessions`. `sort` is the `ORDER BY last_seen_at ASC` of SQLite.
unfoldable pub prune_sessions : (Sessions → Sessions) → ℕ → ℤ → Sessions → Sessions
unfolding drop_expired
prune_sessions sort keep now ss =
    let live = drop_expired now ss in
    let oldest = take (length live - keep) (sort live) in
    if ltb keep (length live)
    then keep_if (λ s. not (any (λ o. bytes_eq o.id s.id) oldest)) live
    else live

abbrev pub Settings : Type 0
Settings = Assoc Bytes

-- `GetSetting`.
unfoldable pub get_setting : Bytes → Bytes → Settings → Bytes
unfolding lookup
get_setting k def s = elim (lookup k s) [ none ↦ def | some v ↦ v ]

-- `SetSetting`; `written` tells whether the database took the row.
unfoldable pub set_setting : Bool → Bytes → Bytes → Settings → Bool × Settings
unfolding insert
set_setting written k v s = if written then (true, insert k v s) else (false, s)

-- `DeleteSetting`.
unfoldable pub delete_setting : Bytes → Settings → Settings
unfolding erase
delete_setting k s = erase k s
