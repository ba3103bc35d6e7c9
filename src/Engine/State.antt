-- ===== src/Engine/State.antt =====
-- engine.go: the state that the engine keeps beside the torrent client, and the operations on one
-- activity record. The client's torrents are a list; each call takes the time at which it runs.
use bitlab.Prelude.{
  Bool, true, false, ◌||◌, List, [], ◌∷◌, Option, none, some, Bytes, bytes_eq, if◌then◌else◌,
  keep_if, not, any,
}
use bitlab.Prelude.Int.{ℤ, pos, ltb_ℤ}
use bitlab.Prelude.Assoc.{Assoc, lookup, insert}

-- `activity`, less the rate, a float that only the console shows.
pub record Activity : Type 0 where
  pub readers : ℤ
  pub adding : Bool
  pub last_access : ℤ
  pub label : Bytes
  pub size : ℤ
  pub prev_bytes : ℤ
  pub prev_at : ℤ
  pub warned_no_peers : Bool

-- What the engine reads of a torrent of the client. `info` is there once the metadata has come.
pub record Torrent : Type 0 where
  pub hash : Bytes
  pub info : Option Bytes
  pub total_length : ℤ
  pub completed : ℤ
  pub active_peers : ℤ

-- `Engine`, with the torrents that its client handles.
pub record Engine : Type 0 where
  pub client : List Torrent
  pub act : Assoc Activity
  pub add_locks : List Bytes
  pub trackers : List Bytes
  pub max_torrents : ℤ
  pub idle_timeout : ℤ

-- `cl.Torrent(h)`.
unfoldable pub find_torrent : Bytes → List Torrent → Option Torrent
find_torrent ih [] = none
find_torrent ih (t ∷ ts) = if bytes_eq t.hash ih then some t else find_torrent ih ts

-- `t.Drop()`.
unfoldable pub drop_torrent : Bytes → List Torrent → List Torrent
drop_torrent ih [] = []
drop_torrent ih (t ∷ ts) = if bytes_eq t.hash ih then drop_torrent ih ts else t ∷ drop_torrent ih ts

abbrev pub remove_lock : Bytes → List Bytes → List Bytes
remove_lock ih locks = keep_if (λ l. not (bytes_eq l ih)) locks

-- `lockFor`: the lock of an infohash is made on first use.
unfoldable pub lock_for : Bytes → Engine → Engine
lock_for ih e =
    if any (bytes_eq ih) e.add_locks then e else record e { add_locks = ih ∷ e.add_locks }

abbrev pub new_activity : ℤ → Activity
new_activity now = record {
  readers = pos 0;
  adding = false;
  last_access = now;
  label = [];
  size = pos 0;
  prev_bytes = pos 0;
  prev_at = now;
  warned_no_peers = false;
}

-- `activity`: the record of an infohash, made on first use.
unfoldable pub activity : Bytes → ℤ → Engine → Activity × Engine
unfolding lookup insert
activity ih now e = elim (lookup ih e.act) [
  | some a ↦ (a, e)
  | none ↦ (new_activity now, record e { act = insert ih (new_activity now) e.act })
]

-- A write through the pointer that `activity` returns.
abbrev pub put_activity : Bytes → Activity → Engine → Engine
put_activity ih a e = record e { act = insert ih a e.act }

-- `touch`.
unfoldable pub touch : Bytes → Bytes → ℤ → Engine → Engine
unfolding activity bytes_eq
touch ih label now e =
    let (a, e') = activity ih now e in
    put_activity ih
      (record a { label = if bytes_eq label [] then a.label else label; last_access = now }) e'

-- `if a, ok := e.act[ih]; ok { a.adding = b }`.
unfoldable pub set_adding : Bytes → Bool → Engine → Engine
unfolding lookup insert
set_adding ih b e = elim (lookup ih e.act) [
  | some a ↦ put_activity ih (record a { adding = b }) e
  | none ↦ e
]

-- The entries that eviction passes over.
unfoldable pub is_busy : Activity → Bool
is_busy a = ltb_ℤ (pos 0) a.readers || a.adding

-- `streamBusy`.
unfoldable pub stream_busy : Assoc Activity → Bool
stream_busy [] = false
stream_busy ((ih, a) ∷ m) = if ltb_ℤ (pos 0) a.readers then true else stream_busy m
