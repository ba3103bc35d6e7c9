-- ===== src/Cache/Sweep.antt =====
-- cache.go: `cacheOwners`, `peekActivity` and `sweepCache`.
use bitlab.Prelude.{
  ℕ, suc, Bool, true, false, not, List, [], ◌∷◌, ◌++◌, none, some, Bytes, bytes_eq, if◌then◌else◌,
  any,
}
use bitlab.Prelude.Int.{ℤ, pos, ltb_ℤ, add64}
use bitlab.Prelude.Assoc.{Assoc, lookup, erase}
use bitlab.Store.Caches.{MediaCache, media_name, forget_media}
use bitlab.Engine.State.{Activity, Torrent, Engine, drop_torrent, remove_lock}
use bitlab.Cache.Plan.{CacheEntry, CacheUnit, CacheDecision}
use bitlab.Cache.Scan.{zero_time}

-- The two sets of `cacheOwners`.
pub record Owners : Type 0 where
  pub owned : List Bytes
  pub pending : List Bytes

unfoldable pub owner_step : MediaCache → Torrent → Owners → Owners
unfolding media_name
owner_step media t o = elim t.info [
  | some m ↦ record o { owned = t.hash ∷ o.owned }
  | none ↦ elim (media_name t.hash media) [
    | none ↦ o
    | some name ↦ record o { pending = t.hash ∷ o.pending }
  ]
]

unfoldable pub owners_from : MediaCache → List Torrent → Owners → Owners
unfolding owner_step
owners_from media [] o = o
owners_from media (t ∷ ts) o = owners_from media ts (owner_step media t o)

-- `cacheOwners`.
unfoldable pub cache_owners : List Torrent → MediaCache → Owners
unfolding owners_from
cache_owners ts media = owners_from media ts (record { owned = []; pending = [] })

-- `peekActivity`.
unfoldable pub peek_activity : Bytes → Assoc Activity → ℤ × ℤ
unfolding lookup
peek_activity ih act = elim (lookup ih act) [
  | none ↦ (pos 0, zero_time)
  | some a ↦ (a.readers, a.last_access)
]

abbrev pub has_name : Bytes → List Bytes → Bool
has_name name set = any (bytes_eq name) set

-- The variables of the loop over the entries.
pub record Survey : Type 0 where
  pub units : List CacheUnit
  pub used : ℤ
  pub partial_bytes : ℤ
  pub orphan_bytes : ℤ
  pub orphan_count : ℕ
  pub loaded : ℕ

-- The unit of an entry of a torrent.
unfoldable pub owned_unit : Assoc Activity → CacheEntry → CacheUnit
unfolding peek_activity
owned_unit act en =
    let (readers, last) = peek_activity en.name act in
    record {
      entry = en;
      infohash = en.name;
      loaded = true;
      readers = readers;
      last_use = if ltb_ℤ en.mod_time last then last else en.mod_time;
    }

unfoldable pub orphan_unit : CacheEntry → CacheUnit
orphan_unit en = record {
  entry = en;
  infohash = [];
  loaded = false;
  readers = pos 0;
  last_use = en.mod_time;
}

unfoldable pub survey_entry : Owners → Assoc Activity → CacheEntry → Survey → Survey
unfolding owned_unit orphan_unit add64 bytes_eq
survey_entry o act en s =
    let s' : Survey = record s {
      used = add64 s.used en.size;
      partial_bytes = if en.partial then add64 s.partial_bytes en.size else s.partial_bytes;
    } in
    if has_name en.name o.owned
    then record s' { units = s.units ++ owned_unit act en ∷ []; loaded = suc s.loaded }
    else (if has_name en.name o.pending then s' else record s' {
      units = s.units ++ orphan_unit en ∷ [];
      orphan_count = suc s.orphan_count;
      orphan_bytes = add64 s.orphan_bytes en.size;
    })

unfoldable pub survey_all : Owners → Assoc Activity → List CacheEntry → Survey → Survey
unfolding survey_entry
survey_all o act [] s = s
survey_all o act (en ∷ ens) s = survey_all o act ens (survey_entry o act en s)

-- The variables of the loop over the plan, with the engine, the media table and the paths that were
-- removed.
pub record Swept : Type 0 where
  pub engine : Engine
  pub media : MediaCache
  pub removed : List Bytes
  pub freed : ℤ
  pub freed_count : ℕ
  pub removed_orphans : ℕ
  pub removed_orphan_bytes : ℤ
  pub removed_partial_bytes : ℤ

-- `t.Drop()` of the torrent of the unit, where the client has it.
unfoldable pub drop_unit : CacheUnit → Engine → Engine
unfolding drop_torrent
drop_unit u e = if u.loaded then record e { client = drop_torrent u.infohash e.client } else e

-- What follows a removal.
unfoldable pub account_unit : CacheUnit → Swept → Swept
unfolding erase forget_media bytes_eq add64
account_unit u s =
    let s' : Swept = record s {
      media = forget_media u.infohash [] s.media;
      removed = s.removed ++ u.path ∷ [];
      freed = add64 s.freed u.size;
      freed_count = suc s.freed_count;
      removed_partial_bytes =
          if u.partial then add64 s.removed_partial_bytes u.size else s.removed_partial_bytes;
    } in
    if not (bytes_eq u.infohash [])
    then record s' {
      engine = record (s.engine) {
        act = erase u.infohash s.engine.act;
        add_locks = remove_lock u.infohash s.engine.add_locks;
      };
    }
    else record s' {
      removed_orphans = suc s.removed_orphans;
      removed_orphan_bytes = add64 s.removed_orphan_bytes u.size;
    }

module _ (remove_all : Bytes → Bool) where
  -- The body of the loop over the plan; `remove_all` is true where it succeeds.
  unfoldable pub sweep_unit : CacheDecision → Swept → Swept
  sweep_unit d s =
      let s' : Swept = record s { engine = drop_unit d.unit s.engine } in
      if remove_all d.unit.path then account_unit d.unit s' else s'

  unfoldable pub sweep_all : List CacheDecision → Swept → Swept
  unfolding sweep_unit
  sweep_all [] s = s
  sweep_all (d ∷ ds) s = sweep_all ds (sweep_unit d s)
