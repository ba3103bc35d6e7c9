-- ===== src/Engine/Client.antt =====
-- The torrents of the client under the operations of engine.go: what a drop and an add leave.
use bitlab.Prelude.{
  ◌≤◌, ◌<◌, ◌≡◌, ◌≢◌, true, false, List, [], ◌∷◌, ◌++◌, none, some, Bytes, bytes_eq, bytes_eq_iff,
  length, arith,
}
use bitlab.Engine.State.{Torrent, find_torrent, drop_torrent}

pub length-drop_torrent-le :
    (h : Bytes) (ts : List Torrent) → length (drop_torrent h ts) ≤ length ts
unfolding drop_torrent
length-drop_torrent-le h [] = omega arith
length-drop_torrent-le h (t ∷ ts) = ground (arith, length-drop_torrent-le h ts)

-- To drop a loaded torrent makes room.
pub length-drop_torrent-lt :
    (h : Bytes) (t : Torrent) (ts : List Torrent)
    → find_torrent h ts ≡ some t
    → length (drop_torrent h ts) < length ts
unfolding drop_torrent find_torrent
length-drop_torrent-lt h t [] e = cc
length-drop_torrent-lt h t (x ∷ ts) e =
    ground (arith, length-drop_torrent-le h ts, length-drop_torrent-lt h t ts)

pub find_torrent-drop_torrent :
    (h k : Bytes) (ts : List Torrent)
    → bytes_eq h k ≡ false
    → find_torrent k (drop_torrent h ts) ≡ find_torrent k ts
unfolding drop_torrent find_torrent
find_torrent-drop_torrent h k [] e = ground arith
find_torrent-drop_torrent h k (x ∷ ts) e = ground (
  arith,
  find_torrent-drop_torrent h k ts e,
  bytes_eq_iff x.hash h,
  bytes_eq_iff x.hash k,
  bytes_eq_iff h k,
)

pub find_torrent-append :
    (k : Bytes) (t : Torrent) (ts us : List Torrent)
    → find_torrent k ts ≡ some t
    → find_torrent k (ts ++ us) ≡ some t
unfolding find_torrent
find_torrent-append k t [] us e = cc
find_torrent-append k t (x ∷ ts) us e = ground (arith, find_torrent-append k t ts us)

-- A torrent that is added is found, unless one of its infohash stands before it.
pub find_torrent-add :
    (k : Bytes) (t : Torrent) (ts : List Torrent)
    → bytes_eq t.hash k ≡ true
    → find_torrent k (ts ++ t ∷ []) ≢ none
unfolding find_torrent
find_torrent-add k t [] e = ground arith
find_torrent-add k t (x ∷ ts) e = ground (arith, find_torrent-add k t ts e)
