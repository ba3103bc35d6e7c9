-- ===== src/Engine/Tests.antt =====
-- The engine on small tables, and its properties there.
use bitlab.Prelude.{
  ◌≡◌, refl, true, false, [], ◌∷◌, Option, none, some, Bytes, bytes, bytes_eq, arith, length,
}
use bitlab.Prelude.Int.{pos, ◌≤ℤ◌}
use bitlab.Prelude.Assoc.{lookup, insert, erase}
use bitlab.Engine.State.{
  Activity, Torrent, Engine, find_torrent, lock_for, activity, touch, set_adding, is_busy,
  new_activity,
}
use bitlab.Engine.Evict.{older, find_oldest, evict_oldest, IsTable}
use bitlab.Engine.Ensure.{
  Ensured, handle, contains, add_trackers, make_slot, add_torrent, ensure_locked, ensure,
}
use bitlab.Engine.Loading.{ensure-total, ensure-capacity, ensure-spares}
use bitlab.Util.Infohash.{valid_infohash, all_digits, is_bad_digit}

program : Unit {0}
unfolding evict_oldest find_oldest older is_busy ensure make_slot add_torrent ensure_locked
    find_torrent touch activity set_adding lock_for lookup insert erase valid_infohash all_digits
    is_bad_digit bytes_eq contains add_trackers
program = tt

abbrev hash_a : Bytes
hash_a = bytes "aaaaaaaaaaaaaaaaaaaaaaaaaaaaaaaaaaaaaaaa"

abbrev hash_b : Bytes
hash_b = bytes "bbbbbbbbbbbbbbbbbbbbbbbbbbbbbbbbbbbbbbbb"

abbrev hash_c : Bytes
hash_c = bytes "cccccccccccccccccccccccccccccccccccccccc"

abbrev torrent_of : Bytes → Torrent
torrent_of h = record {
  hash = h;
  info = none;
  total_length = pos 0;
  completed = pos 0;
  active_peers = pos 0;
}

-- One torrent is read, the other is idle; the client is full.
abbrev reading : Activity
reading = record (new_activity (pos 5)) { readers = pos 1 }

abbrev two_loaded : Engine
two_loaded = record {
  client = torrent_of hash_a ∷ torrent_of hash_b ∷ [];
  act = (hash_a, reading) ∷ (hash_b, new_activity (pos 9)) ∷ [];
  add_locks = hash_b ∷ [];
  trackers = [];
  max_torrents = pos 2;
  idle_timeout = pos 100;
}

abbrev one_left : Engine
one_left = record two_loaded {
  client = torrent_of hash_a ∷ [];
  act = (hash_a, reading) ∷ [];
  add_locks = [];
}

evicts_idle : evict_oldest two_loaded ≡ some (true, one_left)
unfolding program
evicts_idle = refl

refuses_busy : evict_oldest one_left ≡ some (false, one_left)
unfolding program
refuses_busy = refl

two_loaded-IsTable : IsTable two_loaded.act
unfolding program
two_loaded-IsTable = (refl, refl, (refl, refl, tt))

-- A client that adds whatever it is given as the third torrent.
abbrev add_c : Bytes → Option Torrent
add_c uri = some (torrent_of hash_c)

abbrev plain : Bytes → Bytes
plain s = s

abbrev after_add : Engine
after_add = record one_left {
  client = torrent_of hash_a ∷ torrent_of hash_c ∷ [];
  act = (hash_a, reading) ∷ (hash_c, record (new_activity (pos 20)) { label = bytes "film" }) ∷ [];
  add_locks = hash_c ∷ [];
}

adds_third :
    ensure plain add_c hash_c (bytes "film") [] (pos 20) two_loaded
    ≡ some (handle (torrent_of hash_c), after_add)
unfolding program
adds_third = refl

ensure-total_example :
    (r : Ensured × Engine) × (ensure plain add_c hash_c (bytes "film") [] (pos 20) two_loaded
      ≡ some r)
ensure-total_example =
    ensure-total plain add_c hash_c (bytes "film") [] (pos 20) two_loaded two_loaded-IsTable

ensure-capacity_example : pos (length after_add.client) ≤ℤ pos 2
ensure-capacity_example =
    ensure-capacity plain add_c hash_c (bytes "film") [] (pos 20) two_loaded two_loaded-IsTable
      (handle (torrent_of hash_c), after_add) adds_third (omega arith) (omega arith)

ensure-spares_example : find_torrent hash_a after_add.client ≡ some (torrent_of hash_a)
unfolding program
ensure-spares_example =
    ensure-spares plain add_c hash_c (bytes "film") [] (pos 20) two_loaded two_loaded-IsTable
      (handle (torrent_of hash_c), after_add) hash_a (torrent_of hash_a) adds_third
      (reading, refl, refl) refl
