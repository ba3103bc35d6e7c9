-- ===== src/Cache/Pressure.antt =====
-- When the second loop of `planCache` stops (cache.go), and in which order it takes entries.
use mathlib.Core.Path.{subst}
use bitlab.Prelude.{
  ◌≡◌, refl, sym, ap, ◌≢◌, inl, inr, Bool, true, false, List, [], ◌∷◌, ◌++◌, map, Bytes, bytes_eq,
  bytes_eq_iff, any, keep_if, Bool-cases, arith, All,
}
use bitlab.Prelude.Int.{ℤ, pos, ◌≤ℤ◌, ◌<ℤ◌, ltb_ℤ}
use bitlab.Prelude.Members.{
  All-append, All-append_right, All_lem, All-keep_if, All-mono, All-map, mem-keep_if,
}
use mathlib.Core.Logic.Or
use mathlib.Core.Logic.{◌∨₁◌, ∨₁_prop}
use mathlib.Core.List.{
  Mem, Mem-prop, mem-append, mem-append_left, mem-append_right, mem-map_of_mem, not-mem-nil,
  mem-cons, mem-cons_self, map-append,
}
use mathlib.Core.List.Perm
use native.Mathlib.Bridge.{le_prop}
use bitlab.Cache.Plan.{
  CacheUnit, CacheDecision, retention, Limits, Retained, Pressed, is_protected, retain_loop, evict,
  retained, before_pressure, after_pressure,
}
use bitlab.Cache.Candidates.{is_short, is_candidate, candidates, Cut, decisions}
use bitlab.Cache.Policy.{
  IsOrdered, SortLaws, is_stale, retire, retain_step_stale, retain_step-eq, retain_loop-plan,
  decisions-All, plan-Cut, Cut-plan,
}

abbrev pub names : List CacheDecision → List Bytes
names = map (λ (d : CacheDecision). d.unit.name)

IsOrdered-keep_if :
    (p : CacheUnit → Bool) (us : List CacheUnit) → IsOrdered us → IsOrdered (keep_if p us)
IsOrdered-keep_if p [] h = tt
IsOrdered-keep_if p (u ∷ us) h = elim (Bool-cases (p u)) [
  | inl t ↦ rw t (All-keep_if _ p us h.0, IsOrdered-keep_if p us h.1)
  | inr t ↦ rw t (IsOrdered-keep_if p us h.1)
]

-- In an ordered list what stands behind was used no earlier.
IsOrdered-append :
    (us vs : List CacheUnit)
    → IsOrdered (us ++ vs)
    → All (λ (u : CacheUnit). All (λ (v : CacheUnit). u.last_use ≤ℤ v.last_use) vs) us
IsOrdered-append [] vs h = tt
IsOrdered-append (u ∷ us) vs h = (All-append_right _ us vs h.0, IsOrdered-append us vs h.1)

All-mem {ℓ κ} :
    {A : Type ℓ} (P : A → Type κ)
    → ((a : A) → IsProp (P a))
    → (xs : List A) → All P xs
    → (a : A) → Mem a xs
    → P a
All-mem P p [] h a m = absurd (not-mem-nil m)
All-mem P p (x ∷ xs) h a m =
    Or.elim (p a) (mem-cons.0 m) (λ e. subst P (sym e) h.0) (All-mem P p xs h.1 a)

module _ (l : Limits) where
  -- The names that the first loop marks as taken are those of its plan.
  abbrev Marks : Retained → Type 0
  Marks s = (n : Bytes) → any (bytes_eq n) s.taken ≡ true → Mem n (names s.plan)

  retain_step_stale-Marks :
      (u : CacheUnit) (s : Retained) → Marks s → Marks (retain_step_stale l u s)
  retain_step_stale-Marks u s h n t = rw (map-append) (elim (Bool-cases (bytes_eq n u.name)) [
    | inl same ↦ rw ((bytes_eq_iff n u.name).0 same) (mem-append_right (names s.plan) mem-cons_self)
    | inr other ↦ mem-append_left _ (h n (ground arith))
  ])

  retain_loop-Marks : (us : List CacheUnit) (s : Retained) → Marks s → Marks (retain_loop l us s)
  unfolding retain_loop
  retain_loop-Marks [] s h = h
  retain_loop-Marks (u ∷ us) s h = elim (Bool-cases (is_stale l u)) [
    | inl stale ↦
        rw (retain_loop, retain_step-eq, stale)
          (retain_loop-Marks us (retain_step_stale l u s) (retain_step_stale-Marks u s h))
    | inr kept ↦ rw (retain_loop, retain_step-eq, kept) (retain_loop-Marks us s h)
  ]

  names-decisions :
      (us : List CacheUnit) (s : Pressed)
      → names (decisions l us s) ≡ map (λ (u : CacheUnit). u.name) us
  names-decisions [] s = refl
  names-decisions (u ∷ us) s = ap (◌∷◌ u.name) (names-decisions us (evict l u s))

module _ (sort : List CacheUnit → List CacheUnit) (laws : SortLaws sort) (l : Limits) where
  module _ (units : List CacheUnit) (used free : ℤ) where
    -- The state in which the call ends.
    abbrev final : Pressed
    final = after_pressure sort units used free l

    abbrev start : Pressed
    start = before_pressure sort units used free l

    abbrev cut : Cut l (candidates l (retained sort units l).taken (sort units)) start final
    cut = plan-Cut sort l units used free

    taken-planned :
        (n : Bytes)
        → any (bytes_eq n) (retained sort units l).taken ≡ true
        → Mem n (names (retained sort units l).plan)
    unfolding retained
    taken-planned n = elim (Bool-cases (ltb_ℤ (pos 0) l.retain)) [
      | inl on ↦ rw on (retain_loop-Marks l (sort units) _ (λ m h. ground arith) n)
      | inr off ↦ rw off (λ h. ground arith)
    ]

    names-final :
        names final.plan
        ≡ names (retained sort units l).plan ++ map (λ (u : CacheUnit). u.name) cut.gone
    names-final =
        rw (Cut-plan sort l units used free, map-append)
          (ap (λ ns. names (retained sort units l).plan ++ ns) (names-decisions l cut.gone start))

    -- An entry that may go is planned, or it is among those that the walk left.
    planned_or_left :
        (u : CacheUnit)
        → Mem u units
        → is_protected l.now l.grace u ≡ false
        → Mem u.name (names final.plan) ∨₁ Mem u cut.left
    planned_or_left u m h =
        elim (Bool-cases (any (bytes_eq u.name) (retained sort units l).taken)) [
          | inl t ↦ Or.inl (rw names-final (mem-append_left _ (taken-planned u.name t)))
          | inr t ↦
              Or.elim ∨₁_prop
                (mem-append.0 (
                  subst (Mem u) cut.split (
                    mem-keep_if (is_candidate l (retained sort units l).taken) u (sort units)
                      ((Perm.mem_iff (laws.perm units)).1 m) (ground arith))))
                (λ g. Or.inl (
                  rw names-final
                    (mem-append_right _ (mem-map_of_mem (λ (v : CacheUnit). v.name) g))))
                (λ k. Or.inr k)
        ]

    -- Where a limit is still broken when the call ends, every entry that is not protected is
    -- planned for deletion.
    pub plan_cache-reaches :
        (u : CacheUnit)
        → Mem u units
        → is_protected l.now l.grace u ≡ false
        → is_short l final ≡ true
        → Mem u.name (names final.plan)
    plan_cache-reaches u m h broken = elim cut.stops [
      | inl all_gone ↦
          Or.elim Mem-prop (planned_or_left u m h) (λ k. k)
            (λ k. absurd (not-mem-nil (subst (Mem u) all_gone k)))
      | inr kept ↦ cc
    ]

    retained-reason : All (λ (d : CacheDecision). d.reason ≡ retention) (retained sort units l).plan
    unfolding retained
    retained-reason = elim (Bool-cases (ltb_ℤ (pos 0) l.retain)) [
      | inl on ↦
          rw (on, retain_loop-plan l (sort units))
            (All-map _ (retire l) (keep_if (is_stale l) (sort units)) (All_lem _ _ (λ u. refl)))
      | inr off ↦ rw off tt
    ]

    evicted_in_order :
        All
          (λ (d : CacheDecision).
            (u : CacheUnit)
            → d.reason ≢ retention
            → Mem u units
            → is_protected l.now l.grace u ≡ false
            → u.last_use <ℤ d.unit.last_use
            → Mem u.name (names final.plan))
          final.plan
    evicted_in_order = rw (Cut-plan sort l units used free) (
        All-append _ (retained sort units l).plan _
          (All-mono _ _ (retained sort units l).plan (λ d e u ne. absurd (ne e)) retained-reason)
          (All-mono _ _ (decisions l cut.gone start)
            (λ d later u ne m h before. rw (← Cut-plan sort l units used free) (
              Or.elim Mem-prop (planned_or_left u m h) (λ k. k)
                (λ k. absurd (omega (arith, All-mem _ (λ v. le_prop) cut.left later u k)))))
            (decisions-All l _ cut.gone start (
              IsOrdered-append cut.gone cut.left (
                subst IsOrdered cut.split
                  (IsOrdered-keep_if _ (sort units) (laws.ordered units)))))))

    -- The entries are taken in the order of their last use: where an entry is evicted for the
    -- budget or the reserve, every unprotected entry that was last used before it is planned too.
    pub plan_cache-lru :
        (d : CacheDecision) (u : CacheUnit)
        → Mem d final.plan
        → d.reason ≢ retention
        → Mem u units
        → is_protected l.now l.grace u ≡ false
        → u.last_use <ℤ d.unit.last_use
        → Mem u.name (names final.plan)
    plan_cache-lru d u m = All-mem _ (λ e. hlevel Mem-prop) final.plan evicted_in_order d m u
