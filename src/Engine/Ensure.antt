-- ===== src/Engine/Ensure.antt =====
-- engine.go: `ensure`, which loads a torrent, and indexers.go: `magnetURI`. The torrent client and
-- `url.QueryEscape` are parameters. One call runs to its end before the next.
use bitlab.Prelude.{
  Bool, true, false, ◌&&◌, not, List, [], ◌∷◌, ◌++◌, Option, none, some, Bytes, bytes, bytes_eq,
  if◌then◌else◌, length,
}
use bitlab.Prelude.Int.{ℤ, pos, ltb_ℤ, leb_ℤ}
use bitlab.Util.Infohash.{valid_infohash}
use bitlab.Engine.State.{Torrent, Engine, find_torrent, lock_for, touch, set_adding}
use bitlab.Engine.Evict.{evict_oldest}

-- `contains`.
unfoldable pub contains : List Bytes → Bytes → Bool
unfolding bytes_eq
contains [] s = false
contains (v ∷ vs) s = if bytes_eq v s then true else contains vs s

-- The trackers of a magnet link: the configured ones, then those extra ones that are new.
unfoldable pub add_trackers : List Bytes → List Bytes → List Bytes
unfolding contains
add_trackers trs [] = trs
add_trackers trs (t ∷ extra) =
    add_trackers (if not (bytes_eq t []) && not (contains trs t) then trs ++ t ∷ [] else trs) extra

module _ (query_escape : Bytes → Bytes) where
  unfoldable pub tracker_params : List Bytes → Bytes
  tracker_params [] = []
  tracker_params (t ∷ ts) = bytes "&tr=" ++ (query_escape t ++ tracker_params ts)

  -- `magnetURI`.
  unfoldable pub magnet_uri : Bytes → Bytes → List Bytes → Bytes
  unfolding tracker_params bytes_eq
  magnet_uri ih name trackers =
      bytes "magnet:?xt=urn:btih:"
      ++ (ih
          ++ ((if bytes_eq name [] then [] else bytes "&dn=" ++ query_escape name)
              ++ tracker_params trackers))

pub data EnsureError : Type 0 where
  invalid_infohash too_many_torrents add_failed : EnsureError

pub data Ensured : Type 0 where
  handle : Torrent → Ensured
  failed : EnsureError → Ensured

-- The capacity test of `ensure`, with the eviction that it may make.
unfoldable pub make_slot : Engine → Option (Bool × Engine)
unfolding evict_oldest
make_slot e =
    if ltb_ℤ (pos 0) e.max_torrents && leb_ℤ e.max_torrents (pos (length e.client))
    then evict_oldest e
    else some (true, e)

module _ (query_escape : Bytes → Bytes) (add_magnet : Bytes → Option Torrent) where
  -- `AddMagnet` and what follows, once there is room.
  unfoldable pub add_torrent : Bytes → Bytes → List Bytes → Bool × Engine → Ensured × Engine
  unfolding magnet_uri add_trackers set_adding
  add_torrent ih name trs (false, e) = (failed too_many_torrents, set_adding ih false e)
  add_torrent ih name trs (true, e) = elim (add_magnet (magnet_uri query_escape ih name trs)) [
    | none ↦ (failed add_failed, set_adding ih false e)
    | some t ↦ (handle t, set_adding ih false (record e { client = e.client ++ t ∷ [] }))
  ]

  -- The part of `ensure` that holds the lock of the infohash.
  unfoldable pub ensure_locked : Bytes → Bytes → List Bytes → Engine → Option (Ensured × Engine)
  unfolding make_slot add_torrent set_adding add_trackers
  ensure_locked ih name extra e = elim (find_torrent ih e.client) [
    | some t ↦ some (handle t, e)
    | none ↦ elim (make_slot (set_adding ih true e)) [
      | none ↦ none
      | some slot ↦ some (add_torrent ih name (add_trackers e.trackers extra) slot)
    ]
  ]

  -- `ensure`.
  unfoldable pub ensure : Bytes → Bytes → List Bytes → ℤ → Engine → Option (Ensured × Engine)
  unfolding valid_infohash touch lock_for find_torrent ensure_locked
  ensure ih name extra now e =
      if not (valid_infohash ih)
      then some (failed invalid_infohash, e)
      else let e' = touch ih name now e in
        elim (find_torrent ih e'.client) [
          | some t ↦ some (handle t, e')
          | none ↦ ensure_locked ih name extra (lock_for ih e')
        ]
