-- ===== src/Cache/Tests.antt =====
-- `planCache` on a small cache, and its properties there.
use bitlab.Prelude.{
  ◌≡◌, refl, true, false, List, [], ◌∷◌, Bytes, bytes, if◌then◌else◌, arith, Bool-cases, inl, inr,
  All,
}
use bitlab.Prelude.Int.{ℤ, pos, negsuc, ◌-ℤ◌, ◌≤ℤ◌, leb_ℤ, wrap64}
use bitlab.Prelude.Members.{All-mono}
use mathlib.Core.List.{Mem, Perm, mem-cons_self, mem-cons_of_mem}
use mathlib.Core.List.Perm
use bitlab.Cache.Plan.{
  pressure_loop, retain_loop, retain_step, over_budget, under_reserve, evict, pressure_reason,
  before_pressure, CacheUnit, CacheDecision, Reason, budget, retention, Limits, cache_skip, since,
  is_protected, plan_cache, after_pressure, clamp_grace, retained,
}
use bitlab.Cache.Candidates.{Cut, candidates}
use bitlab.Cache.Policy
use bitlab.Cache.Policy.{IsOrdered, SortLaws, plan-Cut, retire}
use bitlab.Cache.Pressure.{names, plan_cache-reaches, plan_cache-lru}
use bitlab.Cache.Account.{total, plan_cache-accounts}

-- Insertion by last use.
unfoldable pub insert_by_use : CacheUnit → List CacheUnit → List CacheUnit
insert_by_use u [] = u ∷ []
insert_by_use u (v ∷ vs) =
    if leb_ℤ u.last_use v.last_use then u ∷ v ∷ vs else v ∷ insert_by_use u vs

unfoldable pub sort_by_use : List CacheUnit → List CacheUnit
unfolding insert_by_use
sort_by_use [] = []
sort_by_use (u ∷ us) = insert_by_use u (sort_by_use us)

insert_by_use-perm : (u : CacheUnit) (us : List CacheUnit) → Perm (insert_by_use u us) (u ∷ us)
unfolding insert_by_use
insert_by_use-perm u [] = Perm.refl _
insert_by_use-perm u (v ∷ vs) = elim (Bool-cases (leb_ℤ u.last_use v.last_use)) [
  | inl le ↦ rw le (Perm.refl _)
  | inr gt ↦ rw gt (Perm.trans (Perm.cons v (insert_by_use-perm u vs)) (Perm.swap u v vs))
]

sort_by_use-perm : (us : List CacheUnit) → Perm (sort_by_use us) us
unfolding sort_by_use
sort_by_use-perm [] = Perm.refl _
sort_by_use-perm (u ∷ us) =
    Perm.trans (insert_by_use-perm u (sort_by_use us)) (Perm.cons u (sort_by_use-perm us))

insert_by_use-All :
    (P : CacheUnit → Type 0) (u : CacheUnit) (us : List CacheUnit)
    → P u
    → All P us
    → All P (insert_by_use u us)
unfolding insert_by_use
insert_by_use-All P u [] p h = (p, tt)
insert_by_use-All P u (v ∷ vs) p h = elim (Bool-cases (leb_ℤ u.last_use v.last_use)) [
  | inl le ↦ rw le (p, h)
  | inr gt ↦ rw gt (h.0, insert_by_use-All P u vs p h.1)
]

insert_by_use-IsOrdered :
    (u : CacheUnit) (us : List CacheUnit) → IsOrdered us → IsOrdered (insert_by_use u us)
unfolding insert_by_use
insert_by_use-IsOrdered u [] h = (tt, tt)
insert_by_use-IsOrdered u (v ∷ vs) h = elim (Bool-cases (leb_ℤ u.last_use v.last_use)) [
  | inl le ↦ rw le ((ground arith, All-mono _ _ vs (λ w later. ground arith) h.0), h)
  | inr gt ↦ rw gt (insert_by_use-All _ u vs (ground arith) h.0, insert_by_use-IsOrdered u vs h.1)
]

sort_by_use-IsOrdered : (us : List CacheUnit) → IsOrdered (sort_by_use us)
unfolding sort_by_use
sort_by_use-IsOrdered [] = tt
sort_by_use-IsOrdered (u ∷ us) = insert_by_use-IsOrdered u _ (sort_by_use-IsOrdered us)

pub sort_by_use-SortLaws : SortLaws sort_by_use
sort_by_use-SortLaws = record { perm = sort_by_use-perm; ordered = sort_by_use-IsOrdered }

abbrev unit_of : Bytes → ℤ → ℤ → ℤ → CacheUnit
unit_of n size readers used = record {
  entry = record { name = n; path = n; size = size; mod_time = used; dir = true; partial = false };
  infohash = [];
  loaded = false;
  readers = readers;
  last_use = used;
}

-- One entry is being read, one is stale, and two compete for the budget.
abbrev watched : CacheUnit
watched = unit_of (bytes "a") (pos 50) (pos 1) (pos 10)

abbrev stale : CacheUnit
stale = unit_of (bytes "b") (pos 20) (pos 0) (pos 100)

abbrev older_film : CacheUnit
older_film = unit_of (bytes "c") (pos 30) (pos 0) (pos 800)

abbrev newer_film : CacheUnit
newer_film = unit_of (bytes "d") (pos 40) (pos 0) (pos 900)

abbrev cached : List CacheUnit
cached = newer_film ∷ watched ∷ older_film ∷ stale ∷ []

abbrev decision : CacheUnit → Reason → CacheDecision
decision u r = record { unit = u; reason = r }

program : Unit {0}
unfolding sort_by_use plan_cache is_protected since cache_skip total pressure_loop retain_loop
    retain_step over_budget under_reserve evict pressure_reason
program = tt

plan_runs :
    plan_cache sort_by_use cached
      (pos 140)
      (pos 100)
      (pos 0)
      (pos 500)
      (pos 1000)
      (pos 50)
      (pos 600)
    ≡ decision stale retention ∷ decision older_film budget ∷ []
unfolding program
plan_runs = refl

-- A failed probe of the free space (-1) leaves the reserve out of account.
unknown_free :
    plan_cache sort_by_use cached
      (pos 140)
      (pos 0)
      (pos 1000)
      (negsuc 0)
      (pos 1000)
      (pos 50)
      (pos 0)
    ≡ []
unfolding program
unknown_free = refl

skips :
    (cache_skip (bytes "bitlab.db") ≡ true)
    × (cache_skip (bytes ".x") ≡ true)
    × (cache_skip (bytes "abc") ≡ false)
unfolding program
skips = (refl, refl, refl)

abbrev at_now : Limits
at_now = record {
  now = pos 1000;
  grace = pos 50;
  retain = pos 600;
  max_bytes = pos 100;
  reserved = pos 0;
}

plan_cache-spares_example :
    All
      (λ (d : CacheDecision).
        Mem d.unit cached
        × (d.unit.readers ≤ℤ pos 0)
        × (clamp_grace (pos 50) ≤ℤ since (pos 1000) d.unit.last_use))
      (plan_cache sort_by_use cached
        (pos 140)
        (pos 100)
        (pos 0)
        (pos 500)
        (pos 1000)
        (pos 50)
        (pos 600))
plan_cache-spares_example =
    Policy.plan_cache-spares sort_by_use cached (pos 140) (pos 100) (pos 0) (pos 500) (pos 1000)
      (pos 50) (pos 600) sort_by_use-SortLaws

plan_cache-retires_example : Mem (decision stale retention) (
    plan_cache sort_by_use cached
      (pos 140)
      (pos 100)
      (pos 0)
      (pos 500)
      (pos 1000)
      (pos 50)
      (pos 600))
unfolding program
plan_cache-retires_example =
    Policy.plan_cache-retires sort_by_use cached (pos 140) (pos 100) (pos 0) (pos 500) (pos 1000)
      (pos 50) (pos 600) sort_by_use-SortLaws stale
      (mem-cons_of_mem _ (mem-cons_of_mem _ (mem-cons_of_mem _ mem-cons_self))) refl refl
      (omega arith)

plan-Cut_example :
    Cut at_now
      (candidates at_now (retained sort_by_use cached at_now).taken (sort_by_use cached))
      (before_pressure sort_by_use cached (pos 140) (pos 500) at_now)
      (after_pressure sort_by_use cached (pos 140) (pos 500) at_now)
plan-Cut_example = plan-Cut sort_by_use at_now cached (pos 140) (pos 500)

-- Under a budget of ten bytes everything goes that may.
abbrev tight : Limits
tight = record at_now { max_bytes = pos 10 }

plan_cache-reaches_example :
    Mem (bytes "d") (names (after_pressure sort_by_use cached (pos 140) (pos 500) tight).plan)
unfolding program
plan_cache-reaches_example =
    plan_cache-reaches sort_by_use sort_by_use-SortLaws tight cached (pos 140) (pos 500) newer_film
      mem-cons_self refl refl

plan_cache-lru_example :
    Mem (bytes "c") (names (after_pressure sort_by_use cached (pos 140) (pos 500) tight).plan)
unfolding program
plan_cache-lru_example =
    plan_cache-lru sort_by_use sort_by_use-SortLaws tight cached (pos 140) (pos 500)
      (decision newer_film budget) older_film (mem-cons_of_mem _ (mem-cons_of_mem _ mem-cons_self))
      (λ e. cc) (mem-cons_of_mem _ (mem-cons_of_mem _ mem-cons_self)) refl (omega arith)

plan_cache-accounts_example :
    let s = after_pressure sort_by_use cached (pos 140) (pos 500) at_now in
    s.used ≡ wrap64 (pos 140 -ℤ total s.plan)
plan_cache-accounts_example = plan_cache-accounts sort_by_use cached (pos 140) (pos 500) at_now
