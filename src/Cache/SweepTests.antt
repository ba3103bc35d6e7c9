-- ===== src/Cache/SweepTests.antt =====
-- A scan and a sweep of a small data directory, and the properties there.
use bitlab.Prelude.{
  ◌≡◌, refl, Bool, true, false, List, [], ◌∷◌, ◌++◌, map, none, some, Bytes, bytes, bytes_eq,
  has_prefix, has_suffix, All,
}
use mathlib.Core.List.{Mem}
use mathlib.Core.List.Perm
use bitlab.Prelude.Int.{ℤ, pos, ◌-ℤ◌, ◌+ℤ◌, add64, sub64, wrap64}
use bitlab.Prelude.Assoc.{lookup, insert, erase}
use bitlab.Prelude.Search.{index_where}
use bitlab.Store.Caches.{media_name, forget_media, trim_part}
use bitlab.Store.Keys.{unix}
use bitlab.Engine.State.{Torrent, new_activity, find_torrent, drop_torrent}
use bitlab.Cache.Plan.{
  pressure_loop, retain_loop, retain_step, over_budget, under_reserve, evict, pressure_reason,
  before_pressure, CacheEntry, cache_skip, since, is_protected, plan_cache, after_pressure,
  clamp_grace, retained,
}
use bitlab.Cache.Tests.{sort_by_use, insert_by_use, sort_by_use-SortLaws}
use bitlab.Cache.Scan.{
  Visit, top_of, add_file, visit_entry, visit_path, visit, walk_all, entry_of, scan_cache,
}
use bitlab.Cache.Sweep.{
  owner_step, owners_from, cache_owners, peek_activity, owned_unit, orphan_unit, survey_entry,
  survey_all, drop_unit, account_unit, sweep_unit, sweep_all,
}
use bitlab.Cache.Run.{SweepSettings, SweepState, survey, sweep_plan, swept, stats_of, sweep_cache}
use bitlab.Cache.Owned.{disposable}
use bitlab.Cache.Removed.{sweep_cache-removed}
use bitlab.Cache.Spared.{SameAt, sweep_cache-SameAt}
use bitlab.Cache.Media.{scan_cache_media}

program : Unit {0}
unfolding scan_cache entry_of walk_all visit visit_path visit_entry add_file top_of sweep_cache
    stats_of swept sweep_plan survey sweep_all sweep_unit account_unit drop_unit survey_all
    survey_entry orphan_unit owned_unit peek_activity cache_owners owners_from owner_step plan_cache
    after_pressure before_pressure pressure_loop retained retain_loop retain_step over_budget
    under_reserve evict pressure_reason clamp_grace is_protected since cache_skip media_name
    forget_media trim_part unix find_torrent drop_torrent lookup insert erase index_where bytes_eq
    has_prefix has_suffix ◌-ℤ◌ ◌+ℤ◌ add64 sub64 wrap64 sort_by_use insert_by_use
program = tt

abbrev at_path : Bytes → Bool → ℤ → ℤ → Visit
at_path rel dir mt n = record {
  failed = false;
  rel = some rel;
  is_dir = dir;
  info = some mt;
  allocated = n;
  base = rel;
}

abbrev hash_a : Bytes
hash_a = bytes "aa"

abbrev visits : List Visit
visits =
    at_path (bytes ".git") true (pos 0) (pos 0)
    ∷ at_path (bytes ".git/config") false (pos 3) (pos 7)
    ∷ at_path hash_a true (pos 0) (pos 0)
    ∷ at_path (bytes "aa/film.mkv") false (pos 5) (pos 100)
    ∷ at_path (bytes "bb.part") false (pos 6) (pos 40)
    ∷ at_path (bytes "wg0.conf") false (pos 9) (pos 1)
    ∷ []

abbrev scanned : List CacheEntry
scanned = scan_cache (λ name. bytes "data/" ++ name) (λ es. es) visits

scan_finds_two : map (λ (en : CacheEntry). en.name) scanned ≡ hash_a ∷ bytes "bb.part" ∷ []
unfolding program
scan_finds_two = refl

abbrev torrent_a : Torrent
torrent_a = record {
  hash = hash_a;
  info = some (bytes "film");
  total_length = pos 100;
  completed = pos 100;
  active_peers = pos 0;
}

abbrev reading : SweepState
reading = record {
  engine = record {
    client = torrent_a ∷ [];
    act = (hash_a, record (new_activity (pos 5)) { readers = pos 1 }) ∷ [];
    add_locks = [];
    trackers = [];
    max_torrents = pos 2;
    idle_timeout = pos 100;
  };
  media = [];
  evicted_bytes = pos 0;
  evicted_count = 0;
  stats = record {
    used = pos 0;
    max_bytes = pos 0;
    reserved = pos 0;
    free = pos 0;
    entries = pos 0;
    partial_bytes = pos 0;
    orphan_bytes = pos 0;
    orphan_count = pos 0;
    loaded = 0;
    evicted_bytes = pos 0;
    evicted_count = 0;
    last_sweep = pos 0;
  };
}

abbrev settings : SweepSettings
settings = record {
  max_bytes = pos 1;
  reserved = pos 0;
  grace_for = pos 10;
  retain_for = pos 0;
  free = none;
  now = pos 1_000_000_000_000;
}

after_sweep :
    (swept sort_by_use (λ p. true) settings scanned reading).removed ≡ bytes "data/bb.part" ∷ []
unfolding program
after_sweep = refl

-- A torrent that awaits its metadata, and has no row in `media_cache`: its directory counts as an
-- orphan, whoever reads it.
abbrev awaiting : SweepState
awaiting = record reading {
  engine = record (reading.engine) { client = record torrent_a { info = none } ∷ [] };
}

removes_awaiting :
    (swept sort_by_use (λ p. true) settings scanned awaiting).removed
    ≡ bytes "data/aa" ∷ bytes "data/bb.part" ∷ []
unfolding program
removes_awaiting = refl

sweep_cache-removed_example :
    All
      (λ p.
        Mem p
          (map (λ (en : CacheEntry). en.path) (disposable reading.engine reading.media scanned)))
      (swept sort_by_use (λ p. true) settings scanned reading).removed
sweep_cache-removed_example =
    sweep_cache-removed sort_by_use (λ p. true) settings reading scanned sort_by_use-SortLaws

sweep_cache-SameAt_example :
    SameAt hash_a reading.engine
      (sweep_cache sort_by_use (λ p. true) settings (some scanned) reading).engine
unfolding program
sweep_cache-SameAt_example =
    sweep_cache-SameAt sort_by_use (λ p. true) settings reading scanned hash_a
      (record (new_activity (pos 5)) { readers = pos 1 }) sort_by_use-SortLaws refl refl refl

scan_cache_media_example : All (λ (en : CacheEntry). cache_skip en.name ≡ false) scanned
scan_cache_media_example =
    scan_cache_media (λ name. bytes "data/" ++ name) (λ es. es) visits (λ es. Perm.refl es)
