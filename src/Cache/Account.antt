-- ===== src/Cache/Account.antt =====
-- The books that `planCache` keeps while it plans (cache.go): the used and the free bytes that it
-- tests against the limits are those that the plan leaves.
use bitlab.Prelude.{◌≡◌, refl, sym, ap, ◌∙◌, List, [], ◌∷◌, ◌++◌, Bool-cases, inl, inr, arith}
use bitlab.Prelude.Int.{
  ℤ, pos, ◌+ℤ◌, ◌-ℤ◌, ltb_ℤ, wrap64, wrap64_fits, wrap64-add, wrap64-sub, wrap64-sub_right, add64,
  sub64, int_laws,
}
use bitlab.Cache.Plan.{
  CacheUnit, CacheDecision, Limits, Retained, Pressed, retain_loop, evict, retained,
  before_pressure, after_pressure,
}
use bitlab.Cache.Candidates.{evict_all}
use bitlab.Cache.Policy.{is_stale, retain_step_stale, retain_step-eq, plan-Cut}

-- The bytes of the entries that a plan deletes.
unfoldable pub total : List CacheDecision → ℤ
total [] = pos 0
total (d ∷ ds) = d.unit.size +ℤ total ds

total-append : (ds es : List CacheDecision) → total (ds ++ es) ≡ total ds +ℤ total es
unfolding total
total-append [] es = omega int_laws
total-append (d ∷ ds) es = rw (total-append ds es) (omega int_laws)

total-push :
    (ds : List CacheDecision) (d : CacheDecision) → total (ds ++ d ∷ []) ≡ total ds +ℤ d.unit.size
total-push ds d = total-append ds (d ∷ []) ∙ last
  where
    last : total ds +ℤ total (d ∷ []) ≡ total ds +ℤ d.unit.size
    last = unfold total in omega int_laws

module _ (l : Limits) where
  retain_loop-freed :
      (us : List CacheUnit) (s : Retained)
      → s.freed ≡ wrap64 (total s.plan)
      → (retain_loop l us s).freed ≡ wrap64 (total (retain_loop l us s).plan)
  unfolding retain_loop add64
  retain_loop-freed [] s h = h
  retain_loop-freed (u ∷ us) s h = elim (Bool-cases (is_stale l u)) [
    | inl stale ↦
        rw (retain_loop, retain_step-eq, stale)
          (retain_loop-freed us (retain_step_stale l u s) (
            ap (λ f. wrap64 (f +ℤ u.size)) h
            ∙ wrap64-add (total s.plan) u.size
            ∙ ap wrap64 (sym (total-push s.plan _))))
    | inr kept ↦ rw (retain_loop, retain_step-eq, kept) (retain_loop-freed us s h)
  ]

  -- The used bytes are what was used, less the plan.
  abbrev Balanced : ℤ → Pressed → Type 0
  Balanced used s = s.used ≡ wrap64 (used -ℤ total s.plan)

  evict_all-Balanced :
      (used : ℤ) (us : List CacheUnit) (s : Pressed)
      → Balanced used s
      → Balanced used (evict_all l us s)
  unfolding evict sub64
  evict_all-Balanced used [] s h = h
  evict_all-Balanced used (u ∷ us) s h = evict_all-Balanced used us (evict l u s) (
      ap (λ f. wrap64 (f -ℤ u.size)) h
      ∙ wrap64-sub (used -ℤ total s.plan) u.size
      ∙ ap wrap64 regroup)
    where
      regroup : used -ℤ total s.plan -ℤ u.size ≡ used -ℤ total (evict l u s).plan
      regroup = rw (total-push s.plan _) (omega int_laws)

module _ (sort : List CacheUnit → List CacheUnit) (units : List CacheUnit) (used free : ℤ)
    (l : Limits) where
  abbrev nothing : Retained
  nothing = record { plan = []; taken = []; freed = pos 0 }

  nothing_freed : pos 0 ≡ wrap64 (total [])
  unfolding total
  nothing_freed = sym (wrap64_fits (pos 0) (omega arith))

  before_pressure-Balanced : Balanced l used (before_pressure sort units used free l)
  unfolding before_pressure retained sub64
  before_pressure-Balanced = elim (Bool-cases (ltb_ℤ (pos 0) l.retain)) [
    | inl on ↦ rw on (
        ap (λ f. wrap64 (used -ℤ f)) (retain_loop-freed l (sort units) nothing nothing_freed)
        ∙ wrap64-sub_right used _)
    | inr off ↦
        rw off
          (ap (λ f. wrap64 (used -ℤ f)) (nothing_freed ∙ ap wrap64 refl) ∙ wrap64-sub_right used _)
  ]

  -- The used bytes in which the call ends are, as an int64, those it was given less the bytes of
  -- every entry it plans to delete.
  pub plan_cache-accounts :
      (after_pressure sort units used free l).used
      ≡ wrap64 (used -ℤ total (after_pressure sort units used free l).plan)
  plan_cache-accounts =
      rw (plan-Cut sort l units used free).result (
        evict_all-Balanced l used (plan-Cut sort l units used free).gone _ before_pressure-Balanced)
