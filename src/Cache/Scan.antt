-- ===== src/Cache/Scan.antt =====
-- cache.go: `scanCache`. What `filepath.WalkDir` shows of each path is a `Visit`; a path below the
-- data directory is its text from there, `none` where it is the directory itself or has no such text.
use bitlab.Prelude.{
  ◌==◌, Bool, true, false, List, [], ◌∷◌, map, Option, none, some, Bytes, bytes, bytes_eq,
  has_suffix, if◌then◌else◌, take, any,
}
use bitlab.Prelude.Int.{ℤ, pos, negsuc, ltb_ℤ, add64}
use bitlab.Prelude.Assoc.{Assoc, lookup, insert}
use bitlab.Prelude.Search.{index_where}
use bitlab.Cache.Plan.{CacheEntry, cache_skip}

pub record Visit : Type 0 where
  pub failed : Bool
  pub rel : Option Bytes
  pub is_dir : Bool
  pub info : Option ℤ
  pub allocated : ℤ
  pub base : Bytes

-- `time.Time{}`, in nanoseconds from 1970.
abbrev pub zero_time : ℤ
zero_time = negsuc 62_135_596_799_999_999_999

-- `agg`.
pub record Agg : Type 0 where
  pub size : ℤ
  pub mod_time : ℤ
  pub dir : Bool
  pub partial : Bool

abbrev pub new_agg : Agg
new_agg = record { size = pos 0; mod_time = zero_time; dir = false; partial = false }

-- The first part of the path.
unfoldable pub top_of : Bytes → Bytes
unfolding index_where
top_of rel = elim (index_where (λ b. b == 47) rel) [ none ↦ rel | some i ↦ take i rel ]

abbrev pub or_new : Option Agg → Agg
or_new none = new_agg
or_new (some a) = a

-- What the walk writes of a file whose information is read.
unfoldable pub add_file : Visit → ℤ → Agg → Agg
unfolding add64 has_suffix
add_file v mt a = record a {
  size = add64 a.size v.allocated;
  mod_time = if ltb_ℤ a.mod_time mt then mt else a.mod_time;
  partial = if has_suffix v.base (bytes ".part") then true else a.partial;
}

-- The entry after the visit of a path that is not skipped.
unfoldable pub visit_entry : Visit → Bytes → Bytes → Agg → Agg
unfolding add_file bytes_eq
visit_entry v rel top a =
    let file = elim v.info as (λ o. Agg) [ none ↦ a | some mt ↦ add_file v mt a ] in
    if v.is_dir then (if bytes_eq rel top then record a { dir = true } else a) else file

-- The variables of the walk: the map, and the names whose directories are skipped.
pub record Walk : Type 0 where
  pub entries : Assoc Agg
  pub skipped : List Bytes

-- The callback, for a path that can be read.
unfoldable pub visit_path : Visit → Bytes → Walk → Walk
unfolding top_of cache_skip visit_entry lookup insert
visit_path v rel w =
    let top = top_of rel in
    if cache_skip top
    then (if v.is_dir then record w { skipped = top ∷ w.skipped } else w)
    else record w {
      entries = insert top (visit_entry v rel top (or_new (lookup top w.entries))) w.entries;
    }

-- The callback. Below a directory that it skips it is not called.
unfoldable pub visit : Visit → Walk → Walk
unfolding visit_path top_of bytes_eq
visit v w = if v.failed then w else elim v.rel [
  | none ↦ w
  | some rel ↦ if any (bytes_eq (top_of rel)) w.skipped then w else visit_path v rel w
]

unfoldable pub walk_all : List Visit → Walk → Walk
unfolding visit
walk_all [] w = w
walk_all (v ∷ vs) w = walk_all vs (visit v w)

module _ (join : Bytes → Bytes) (sort : List CacheEntry → List CacheEntry) where
  unfoldable pub entry_of : Bytes × Agg → CacheEntry
  entry_of (name, a) = record {
    name = name;
    path = join name;
    size = a.size;
    mod_time = a.mod_time;
    dir = a.dir;
    partial = a.partial;
  }

  -- `scanCache`, with `filepath.Join(root, name)` and `sort.Slice` by name.
  unfoldable pub scan_cache : List Visit → List CacheEntry
  unfolding walk_all entry_of
  scan_cache visits =
      sort (map entry_of (walk_all visits (record { entries = []; skipped = [] })).entries)
