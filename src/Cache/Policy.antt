-- ===== src/Cache/Policy.antt =====
-- The plan of `planCache` against the entries that it is given (cache.go).
use mathlib.Core.Path.{subst}
use bitlab.Prelude.{
  ◌≡◌, sym, ap, ◌∙◌, inl, inr, Bool, true, false, ◌||◌, not, List, [], ◌∷◌, ◌++◌, map,
  if◌then◌else◌, keep_if, Bool-cases, arith, All,
}
use bitlab.Prelude.Int.{ℤ, pos, ◌≤ℤ◌, ◌<ℤ◌, ltb_ℤ, leb_ℤ, add64}
use bitlab.Prelude.Members.{
  All-append, All-append_left, All-of_mem, All-keep_if, All-keep_if_test, All-mono, All-zip,
  All-map, mem-keep_if,
}
use mathlib.Core.List.{Mem, Perm, mem-append_left, mem-map_of_mem, append_assoc}
use mathlib.Core.List.Perm
use mathlib.Core.List
use bitlab.Cache.Plan.{
  CacheUnit, CacheDecision, retention, Limits, Retained, Pressed, since, is_protected, retain_step,
  retain_loop, evict, clamp_grace, retained, before_pressure, after_pressure, plan_cache,
}
use bitlab.Cache.Candidates.{candidates, evict_all, Cut, pressure_loop-Cut, decisions}

-- `sort.Slice` by last use: the same entries, the oldest use first.
abbrev pub IsOrdered : List CacheUnit → Type 0
IsOrdered [] = Unit
IsOrdered (u ∷ us) = All (λ (v : CacheUnit). u.last_use ≤ℤ v.last_use) us × IsOrdered us

pub record SortLaws (sort : List CacheUnit → List CacheUnit) : Type 0 where
  pub perm : (us : List CacheUnit) → Perm (sort us) us
  pub ordered : (us : List CacheUnit) → IsOrdered (sort us)

module _ (l : Limits) where
  -- The test of the retention loop.
  abbrev pub is_stale : CacheUnit → Bool
  is_stale u = not (is_protected l.now l.grace u || leb_ℤ (since l.now u.last_use) l.retain)

  abbrev pub retire : CacheUnit → CacheDecision
  retire u = record { unit = u; reason = retention }

  -- A turn of the loop that takes the entry.
  abbrev pub retain_step_stale : CacheUnit → Retained → Retained
  retain_step_stale u s = record {
    plan = s.plan ++ retire u ∷ [];
    taken = u.name ∷ s.taken;
    freed = add64 s.freed u.size;
  }

  pub retain_step-eq :
      (u : CacheUnit) (s : Retained)
      → retain_step l u s ≡ (if is_stale u then retain_step_stale u s else s)
  unfolding retain_step
  retain_step-eq u s = ground arith

  pub retain_loop-plan :
      (us : List CacheUnit) (s : Retained)
      → (retain_loop l us s).plan ≡ s.plan ++ map retire (keep_if is_stale us)
  unfolding retain_loop
  retain_loop-plan [] s = sym (List.append-nil _)
  retain_loop-plan (u ∷ us) s = elim (Bool-cases (is_stale u)) [
    | inl stale ↦
        rw (retain_loop, retain_step-eq, stale)
          (retain_loop-plan us (retain_step_stale u s) ∙ append_assoc s.plan _ _)
    | inr kept ↦ rw (retain_loop, retain_step-eq, kept) (retain_loop-plan us s)
  ]

  evict_all-plan :
      (us : List CacheUnit) (s : Pressed) → (evict_all l us s).plan ≡ s.plan ++ decisions l us s
  unfolding evict
  evict_all-plan [] s = sym (List.append-nil _)
  evict_all-plan (u ∷ us) s = evict_all-plan us (evict l u s) ∙ append_assoc s.plan _ _

  -- A fact about the entries evicted passes to their decisions.
  pub decisions-All :
      (P : CacheUnit → Type 0) (us : List CacheUnit) (s : Pressed)
      → All P us
      → All (λ (d : CacheDecision). P d.unit) (decisions l us s)
  decisions-All P [] s h = tt
  decisions-All P (u ∷ us) s h = (h.0, decisions-All P us (evict l u s) h.1)

module _ (sort : List CacheUnit → List CacheUnit) (l : Limits) where
  -- A fact about the entries passes to the decisions of the first loop, with their age.
  retained-All :
      (P : CacheUnit → Type 0) (units : List CacheUnit)
      → All P (sort units)
      → All
          (λ (d : CacheDecision). P d.unit × (is_protected l.now l.grace d.unit ≡ false))
          (retained sort units l).plan
  unfolding retained
  retained-All P units h = elim (Bool-cases (ltb_ℤ (pos 0) l.retain)) [
    | inl on ↦
        rw (on, retain_loop-plan l (sort units))
          (All-map _ (retire l) (keep_if (is_stale l) (sort units)) (
            All-zip _ _ (keep_if (is_stale l) (sort units)) (All-keep_if P _ _ h)
              (All-mono _ _ _ (λ u t. ground arith) (All-keep_if_test (is_stale l) (sort units)))))
    | inr off ↦ rw off tt
  ]

  -- The cut of the second loop, in terms of the call.
  pub plan-Cut :
      (units : List CacheUnit) (used free : ℤ)
      → Cut l
          (candidates l (retained sort units l).taken (sort units))
          (before_pressure sort units used free l)
          (after_pressure sort units used free l)
  unfolding after_pressure
  plan-Cut units used free = pressure_loop-Cut l (retained sort units l).taken (sort units) _

  pub Cut-plan :
      (units : List CacheUnit) (used free : ℤ)
      → (after_pressure sort units used free l).plan
        ≡ (retained sort units l).plan
          ++ decisions l (plan-Cut units used free).gone (before_pressure sort units used free l)
  unfolding before_pressure
  Cut-plan units used free =
      ap (λ (s : Pressed). s.plan) (plan-Cut units used free).result
      ∙ evict_all-plan l (plan-Cut units used free).gone (before_pressure sort units used free l)

  -- A fact about the entries passes to all decisions, with what spares no entry.
  plan-All :
      (P : CacheUnit → Type 0) (units : List CacheUnit) (used free : ℤ)
      → All P (sort units)
      → All
          (λ (d : CacheDecision). P d.unit × (is_protected l.now l.grace d.unit ≡ false))
          (after_pressure sort units used free l).plan
  plan-All P units used free h =
      let c = plan-Cut units used free in
      let t = (retained sort units l).taken in
      let cs = candidates l t (sort units) in
      rw (Cut-plan units used free) (
        All-append _ (retained sort units l).plan _ (retained-All P units h) (
          decisions-All l (λ u. P u × (is_protected l.now l.grace u ≡ false)) c.gone _
            (All-append_left _ c.gone c.left (
              subst (All _) c.split (
                All-zip _ _ cs (All-keep_if P _ _ h)
                  (All-mono _ _ cs (λ u t. ground arith) (All-keep_if_test _ (sort units))))))))

module _ (sort : List CacheUnit → List CacheUnit) (units : List CacheUnit)
    (used max_bytes reserved free now grace retain : ℤ) where
  abbrev pub limits : Limits
  limits = record {
    now = now;
    grace = clamp_grace grace;
    retain = retain;
    max_bytes = max_bytes;
    reserved = reserved;
  }

  abbrev plan : List CacheDecision
  plan = plan_cache sort units used max_bytes reserved free now grace retain

  module _ (laws : SortLaws sort) where
    -- Every entry that is planned for deletion is one of those given, has no reader, and was last
    -- used at least the grace period ago, where a negative grace period counts as none.
    pub plan_cache-spares :
        All
          (λ (d : CacheDecision).
            Mem d.unit units
            × (d.unit.readers ≤ℤ pos 0)
            × (clamp_grace grace ≤ℤ since now d.unit.last_use))
          plan
    unfolding plan_cache is_protected
    plan_cache-spares =
        All-mono _ _ _ (λ d h. (h.0, ground arith, ground arith))
          (plan-All sort limits (λ u. Mem u units) units used free
            (All-of_mem _ _ (λ u m. (Perm.mem_iff (laws.perm units)).0 m)))

    -- With a retention period, every entry that is not protected and was last used longer ago than
    -- that is planned for deletion, as retention.
    pub plan_cache-retires :
        (u : CacheUnit)
        → Mem u units
        → ltb_ℤ (pos 0) retain ≡ true
        → is_protected now (clamp_grace grace) u ≡ false
        → retain <ℤ since now u.last_use
        → Mem (retire limits u) plan
    unfolding plan_cache retained
    plan_cache-retires u m on free_now old = rw (Cut-plan sort limits units used free) (
        mem-append_left {s = (retained sort units limits).plan} _ (
          rw (on, retain_loop-plan limits (sort units))
            (mem-map_of_mem (retire limits) (
              mem-keep_if (is_stale limits) u (sort units) ((Perm.mem_iff (laws.perm units)).1 m)
                (ground arith)))))
