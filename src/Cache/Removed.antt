-- ===== src/Cache/Removed.antt =====
-- cache.go: what a sweep removes and what it leaves.
use bitlab.Prelude.{
  ◌≡◌, sym, ap, ◌∙◌, Bool, false, not, List, [], ◌∷◌, inl, inr, Bytes, bytes_eq, map, All,
  Bool-cases, arith,
}
use mathlib.Core.List.{Mem, mem-map_of_mem}
use bitlab.Prelude.Int.{ℤ, pos, ◌≤ℤ◌, ltb_ℤ}
use bitlab.Prelude.Members.{All-append, All-mono, All-of_mem, All-mem, mem-keep_if}
use bitlab.Engine.State.{Engine}
use bitlab.Store.Caches.{MediaCache}
use bitlab.Cache.Owned.{is_spared, disposable, cache_owners_sets, is_read-peek_activity}
use bitlab.Cache.Plan.{CacheEntry, CacheUnit, CacheDecision}
use bitlab.Cache.Policy.{SortLaws, plan_cache-spares}
use bitlab.Cache.Sweep.{
  cache_owners, has_name, Survey, owned_unit, orphan_unit, survey_entry, survey_all, Swept,
  account_unit, sweep_unit, sweep_all,
}
use bitlab.Cache.Run.{SweepSettings, free_of, SweepState, no_survey, survey, sweep_plan, swept}

-- A unit without readers is of an entry that may go.
abbrev IsFree : Engine → MediaCache → List CacheEntry → CacheUnit → Type 0
IsFree e media all u = ltb_ℤ (pos 0) u.readers ≡ false → Mem u.entry (disposable e media all)

IsFree-prop :
    (e : Engine) (media : MediaCache) (all : List CacheEntry) (u : CacheUnit)
    → IsProp (IsFree e media all u)
IsFree-prop e media all u = hlevel

module _ (e : Engine) (media : MediaCache) (all : List CacheEntry) where
  may_go :
      (en : CacheEntry)
      → Mem en all
      → is_spared e media en ≡ false
      → Mem en (disposable e media all)
  may_go en there free = mem-keep_if (λ x. not (is_spared e media x)) en all there (ap not free)

  survey_entry-IsFree :
      (en : CacheEntry) (s : Survey)
      → Mem en all
      → All (IsFree e media all) s.units
      → All (IsFree e media all) (survey_entry (cache_owners e.client media) e.act en s).units
  unfolding survey_entry owned_unit orphan_unit
  survey_entry-IsFree en s there h =
      let o = cache_owners e.client media in
      let (owners, awaited) = cache_owners_sets media en.name e.client in
      elim (Bool-cases (has_name en.name o.owned)) [
        | inl owned ↦ rw owned (
            All-append (IsFree e media all) s.units _ h (
              (λ idle.
                  may_go en there
                    (rw (sym owners ∙ owned) (is_read-peek_activity en.name e ∙ idle))),
              tt,
            ))
        | inr free ↦ elim (Bool-cases (has_name en.name o.pending)) [
          | inl pending ↦ rw (free, pending) h
          | inr orphan ↦
              rw (free, orphan)
                (All-append (IsFree e media all) s.units _ h
                  ((λ idle. may_go en there (rw (sym owners ∙ free) (sym awaited ∙ orphan))), tt))
        ]
      ]

  survey_all-IsFree :
      (ens : List CacheEntry) (s : Survey)
      → All (λ en. Mem en all) ens
      → All (IsFree e media all) s.units
      → All (IsFree e media all) (survey_all (cache_owners e.client media) e.act ens s).units
  unfolding survey_all
  survey_all-IsFree [] s there h = h
  survey_all-IsFree (en ∷ ens) s there h =
      survey_all-IsFree ens (survey_entry (cache_owners e.client media) e.act en s) there.1
        (survey_entry-IsFree en s there.0 h)

module _ (sort : List CacheUnit → List CacheUnit) (remove_all : Bytes → Bool) (c : SweepSettings)
    (laws : SortLaws sort) where
  abbrev MayGo : SweepState → List CacheEntry → CacheDecision → Type 0
  MayGo st entries d = Mem d.unit.entry (disposable st.engine st.media entries)

  sweep_plan-MayGo :
      (st : SweepState) (entries : List CacheEntry)
      → All (MayGo st entries) (sweep_plan sort remove_all c (survey st.engine st.media entries))
  unfolding sweep_plan survey
  sweep_plan-MayGo st entries =
      let e = st.engine in
      let v = survey e st.media entries in
      let free =
        survey_all-IsFree e st.media entries entries no_survey
          (All-of_mem (λ en. Mem en entries) entries (λ en m. m)) tt in
      All-mono _ (MayGo st entries) _
        (λ d h.
          All-mem (IsFree e st.media entries) (IsFree-prop e st.media entries) d.unit v.units free
            h.0 (idle d.unit.readers h.1))
        (plan_cache-spares sort v.units v.used c.max_bytes c.reserved (free_of c.free) c.now
          c.grace_for c.retain_for laws)
    where
      idle : (n : ℤ) → n ≤ℤ pos 0 → ltb_ℤ (pos 0) n ≡ false
      idle n h = ground arith

-- The loop over the plan removes paths of the planned entries only.
sweep_all-removed :
    (P : Bytes → Type 0) (remove_all : Bytes → Bool) (ds : List CacheDecision) (s : Swept)
    → All (λ (d : CacheDecision). P d.unit.path) ds
    → All P s.removed
    → All P (sweep_all remove_all ds s).removed
unfolding sweep_all sweep_unit account_unit
sweep_all-removed P remove_all [] s hd h = h
sweep_all-removed P remove_all (d ∷ ds) s hd h =
    sweep_all-removed P remove_all ds (sweep_unit remove_all d s) hd.1 one
  where
    one : All P (sweep_unit remove_all d s).removed
    one = elim (Bool-cases (remove_all d.unit.path)) [
      | inr failed ↦ rw failed h
      | inl gone ↦ elim (Bool-cases (bytes_eq d.unit.infohash [])) [
        | inl orphan ↦ rw (gone, orphan) (All-append P s.removed _ h (hd.0, tt))
        | inr owned ↦ rw (gone, owned) (All-append P s.removed _ h (hd.0, tt))
      ]
    ]

-- With a sort by last use: every path that a sweep removes is the path of an entry of the scan such
-- that, where a torrent of its name has its metadata, nobody reads that name, and where none has, no
-- torrent of its name with a row in `media_cache` awaits its metadata.
pub sweep_cache-removed :
    (sort : List CacheUnit → List CacheUnit) (remove_all : Bytes → Bool) (c : SweepSettings)
    (st : SweepState) (entries : List CacheEntry)
    → SortLaws sort
    → All
        (λ p. Mem p (map (λ (en : CacheEntry). en.path) (disposable st.engine st.media entries)))
        (swept sort remove_all c entries st).removed
unfolding swept
sweep_cache-removed sort remove_all c st entries laws =
    sweep_all-removed _ remove_all
      (sweep_plan sort remove_all c (survey st.engine st.media entries)) _
      (All-mono _ _ _ (λ d m. mem-map_of_mem (λ (en : CacheEntry). en.path) m)
        (sweep_plan-MayGo sort remove_all c laws st entries))
      tt
