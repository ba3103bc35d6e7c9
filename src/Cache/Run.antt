-- ===== src/Cache/Run.antt =====
-- cache.go: `sweepCache` from the scan to the figures for the console, less the two settings in
-- minutes.
use bitlab.Prelude.{ℕ, ◌+◌, Bool, List, [], Option, none, some, Bytes, length}
use bitlab.Prelude.Int.{ℤ, pos, negsuc, sub_ℕ, add64, sub64}
use bitlab.Store.Keys.{unix}
use bitlab.Store.Caches.{MediaCache}
use bitlab.Engine.State.{Engine}
use bitlab.Cache.Plan.{CacheEntry, CacheUnit, CacheDecision, plan_cache}
use bitlab.Cache.Sweep.{cache_owners, Survey, survey_all, Swept, sweep_all}

-- `CacheStats`.
pub record CacheStats : Type 0 where
  pub used : ℤ
  pub max_bytes : ℤ
  pub reserved : ℤ
  pub free : ℤ
  pub entries : ℤ
  pub partial_bytes : ℤ
  pub orphan_bytes : ℤ
  pub orphan_count : ℤ
  pub loaded : ℕ
  pub evicted_bytes : ℤ
  pub evicted_count : ℕ
  pub last_sweep : ℤ

-- The settings that a sweep reads; `free` is what `freeDiskSpace` returns.
pub record SweepSettings : Type 0 where
  pub max_bytes : ℤ
  pub reserved : ℤ
  pub grace_for : ℤ
  pub retain_for : ℤ
  pub free : Option ℤ
  pub now : ℤ

-- The engine, the media table, what has been removed so far, and the figures.
pub record SweepState : Type 0 where
  pub engine : Engine
  pub media : MediaCache
  pub evicted_bytes : ℤ
  pub evicted_count : ℕ
  pub stats : CacheStats

abbrev pub free_of : Option ℤ → ℤ
free_of none = negsuc 0
free_of (some n) = n

abbrev pub no_survey : Survey
no_survey = record {
  units = [];
  used = pos 0;
  partial_bytes = pos 0;
  orphan_bytes = pos 0;
  orphan_count = 0;
  loaded = 0;
}

unfoldable pub survey : Engine → MediaCache → List CacheEntry → Survey
unfolding survey_all cache_owners
survey e media entries = survey_all (cache_owners e.client media) e.act entries no_survey

module _ (sort : List CacheUnit → List CacheUnit) (remove_all : Bytes → Bool)
    (c : SweepSettings) where
  unfoldable pub sweep_plan : Survey → List CacheDecision
  unfolding plan_cache
  sweep_plan v =
      plan_cache sort v.units v.used c.max_bytes c.reserved (free_of c.free) c.now c.grace_for
        c.retain_for

  -- The loop over the plan.
  unfoldable pub swept : List CacheEntry → SweepState → Swept
  unfolding sweep_plan sweep_all survey
  swept entries st = sweep_all remove_all (sweep_plan (survey st.engine st.media entries)) (record {
    engine = st.engine;
    media = st.media;
    removed = [];
    freed = pos 0;
    freed_count = 0;
    removed_orphans = 0;
    removed_orphan_bytes = pos 0;
    removed_partial_bytes = pos 0;
  })

  unfoldable pub stats_of : List CacheEntry → Survey → Swept → SweepState → CacheStats
  unfolding add64 sub64 unix
  stats_of entries v s st = record {
    used = sub64 v.used s.freed;
    max_bytes = c.max_bytes;
    reserved = c.reserved;
    free = free_of c.free;
    entries = sub_ℕ (length entries) s.freed_count;
    partial_bytes = sub64 v.partial_bytes s.removed_partial_bytes;
    orphan_bytes = sub64 v.orphan_bytes s.removed_orphan_bytes;
    orphan_count = sub_ℕ v.orphan_count s.removed_orphans;
    loaded = v.loaded;
    evicted_bytes = add64 st.evicted_bytes s.freed;
    evicted_count = st.evicted_count + s.freed_count;
    last_sweep = unix c.now;
  }

  -- `sweepCache`; the scan gives `none` where it fails.
  unfoldable pub sweep_cache : Option (List CacheEntry) → SweepState → SweepState
  unfolding swept stats_of survey
  sweep_cache none st = st
  sweep_cache (some entries) st =
      let s = swept entries st in
      let figures = stats_of entries (survey st.engine st.media entries) s st in
      record {
        engine = s.engine;
        media = s.media;
        evicted_bytes = figures.evicted_bytes;
        evicted_count = figures.evicted_count;
        stats = figures;
      }
