-- ===== src/Engine/Reap.antt =====
-- engine.go: `reapIdle`. A duration is an integer of nanoseconds; the rate, a float that only the
-- console shows, is left out.
use bitlab.Prelude.{Bool, true, ◌&&◌, not, List, [], ◌∷◌, none, some, Bytes, if◌then◌else◌}
use bitlab.Prelude.Int.{ℤ, pos, ltb_ℤ, leb_ℤ}
use bitlab.Prelude.Assoc.{erase, insert}
use bitlab.Cache.Plan.{since}
use bitlab.Engine.State.{
  Activity, Torrent, Engine, activity, put_activity, drop_torrent, remove_lock,
}

abbrev pub is_zero : ℤ → Bool
is_zero n = leb_ℤ n (pos 0) && leb_ℤ (pos 0) n

-- What the pass writes of the progress: `a.size`, `a.prevBytes` and `a.prevAt`.
unfoldable pub measure : ℤ → Torrent → Activity → Activity
measure now t a = record a {
  size = elim t.info [ none ↦ a.size | some m ↦ t.total_length ];
  prev_bytes = if ltb_ℤ a.prev_at now then t.completed else a.prev_bytes;
  prev_at = now;
}

-- 15 seconds.
abbrev pub warn_after : ℤ
warn_after = pos 15_000_000_000

unfoldable pub needs_warning : ℤ → Torrent → Activity → Bool
unfolding since
needs_warning now t a =
    ltb_ℤ (pos 0) a.readers
    && (ltb_ℤ (pos 0) a.size
        && (is_zero t.active_peers
            && (ltb_ℤ warn_after (since now a.last_access) && not a.warned_no_peers)))

-- The warning that a stream has no peers, once.
unfoldable pub warn : ℤ → Torrent → Activity → Activity
warn now t a = if needs_warning now t a then record a { warned_no_peers = true } else a

-- `readers == 0 && idle > time.Duration(e.idleTimeout.Load())`.
unfoldable pub is_idle : ℤ → ℤ → Activity → Bool
unfolding since
is_idle timeout now a = is_zero a.readers && ltb_ℤ timeout (since now a.last_access)

-- `t.Drop()`, with the entry and the lock of the torrent.
unfoldable pub drop_idle : Bytes → Engine → Engine
unfolding drop_torrent erase
drop_idle ih e = record e {
  client = drop_torrent ih e.client;
  act = erase ih e.act;
  add_locks = remove_lock ih e.add_locks;
}

-- The body of the loop of `reapIdle`.
unfoldable pub reap_one : ℤ → Torrent → Engine → Engine
unfolding activity insert
reap_one now t e =
    let (a, e1) = activity t.hash now e in
    let e2 = put_activity t.hash (warn now t (measure now t a)) e1 in
    if is_idle e.idle_timeout now a then drop_idle t.hash e2 else e2

unfoldable pub reap_all : ℤ → List Torrent → Engine → Engine
unfolding reap_one
reap_all now [] e = e
reap_all now (t ∷ ts) e = reap_all now ts (reap_one now t e)

-- `reapIdle`: the loop runs over the torrents that the client has at the start.
unfoldable pub reap_idle : ℤ → Engine → Engine
unfolding reap_all
reap_idle now e = reap_all now e.client e
