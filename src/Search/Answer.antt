-- ===== src/Search/Answer.antt =====
-- indexers.go: the answer of `searchAll`.
use bitlab.Prelude.{
  ◌≡◌, refl, sym, ◌⊎◌, Bool, true, false, not, ◌&&◌, List, [], ◌∷◌, none, some, inl, inr, Bytes,
  bytes, bytes_eq, if◌then◌else◌, take, keep_if, All, Bool-cases, Option-cases, arith,
}
use mathlib.Core.Path.{subst}
use mathlib.Core.List.{reverse}
use bitlab.Prelude.Int.{ℤ, pos, ltb_ℤ}
use bitlab.Prelude.Members.{All-keep_if, All-keep_if_test, All-mono, All_lem}
use bitlab.Prelude.Pairs.{
  Pairwise, All-firsts, All-backwards, Pairwise-keep_if, Pairwise-take, Pairwise-reverse,
}
use bitlab.Search.Merge.{
  SearchResult, Out, Drained, drain_one, drain, drop_dead, keep_episode, sort_back, sort_results,
  rank,
}
use bitlab.Search.Fanout.{Indexer, launches, search_all}
use bitlab.Search.Merged.{Differ, merge_all-Pairwise}
use bitlab.Search.Ranked.{
  IsScoreOrder, IsAnswer, Differ-sym, length-take-le, sort_back-All, sort_back-Differ,
  sort_back-Pairwise,
}

abbrev IsLive : SearchResult → Type 0
IsLive r = ltb_ℤ (pos 0) r.seeders ≡ true

abbrev IsDead : SearchResult → Type 0
IsDead r = ltb_ℤ (pos 0) r.seeders ≡ false

nothing_kept :
    (p : SearchResult → Bool) (rs : List SearchResult)
    → keep_if p rs ≡ []
    → All (λ r. p r ≡ false) rs
nothing_kept p [] h = tt
nothing_kept p (r ∷ rs) h = elim (Bool-cases (p r)) [
  | inl e ↦ absurd (full (subst (λ b. (if b then r ∷ keep_if p rs else keep_if p rs) ≡ []) e h))
  | inr e ↦
      (e, nothing_kept p rs (subst (λ b. (if b then r ∷ keep_if p rs else keep_if p rs) ≡ []) e h))
]
  where
    full : ¬ (r ∷ keep_if p rs ≡ [])
    full h = cc

-- Either all are dead and stay, or the live ones stay.
drop_dead-cases :
    (rs : List SearchResult)
    → ((drop_dead rs ≡ rs) × All IsDead rs)
      ⊎ (drop_dead rs ≡ keep_if (λ r. ltb_ℤ (pos 0) r.seeders) rs)
unfolding drop_dead
drop_dead-cases rs = go (keep_if (λ r. ltb_ℤ (pos 0) r.seeders) rs) refl
  where
    go :
        (kept : List SearchResult)
        → keep_if (λ r. ltb_ℤ (pos 0) r.seeders) rs ≡ kept
        → ((drop_dead rs ≡ rs) × All IsDead rs)
          ⊎ (drop_dead rs ≡ keep_if (λ r. ltb_ℤ (pos 0) r.seeders) rs)
    go [] e = inl (rw (e, drop_dead) refl, nothing_kept (λ r. ltb_ℤ (pos 0) r.seeders) rs e)
    go (r ∷ live) e = inr (rw (e, drop_dead) refl)

module _ (above : SearchResult → SearchResult → Bool) (signal : Bytes → ℤ) (asked : Bool) where
  -- What holds before the cut.
  record IsSorted (rs : List SearchResult) : Type 0 where
    ordered : Pairwise (λ a b. above b a ≡ false) rs
    distinct : Pairwise Differ rs
    fitting : All (λ r. (asked && ltb_ℤ (signal r.title) (pos 0)) ≡ false) rs

  IsSorted-keep_if :
      (p : SearchResult → Bool) (rs : List SearchResult) → IsSorted rs → IsSorted (keep_if p rs)
  IsSorted-keep_if p rs h = record {
    ordered = Pairwise-keep_if _ p rs h.ordered;
    distinct = Pairwise-keep_if Differ p rs h.distinct;
    fitting = All-keep_if _ p rs h.fitting;
  }

  cut-IsAnswer :
      (rs : List SearchResult)
      → IsSorted rs
      → (All IsLive rs ⊎ All IsDead rs)
      → IsAnswer above signal asked (take 40 rs)
  cut-IsAnswer rs h live = record {
    bounded = length-take-le 40 rs;
    ordered = Pairwise-take _ 40 rs h.ordered;
    distinct = Pairwise-take Differ 40 rs h.distinct;
    live = elim live [
      | inl l ↦ inl (All-firsts IsLive 40 rs l)
      | inr d ↦ inr (All-firsts IsDead 40 rs d)
    ];
    fitting = All-firsts _ 40 rs h.fitting;
  }

  drop_dead-IsAnswer :
      (rs : List SearchResult) → IsSorted rs → IsAnswer above signal asked (take 40 (drop_dead rs))
  drop_dead-IsAnswer rs h = elim (drop_dead-cases rs) [
    | inl (same, dead) ↦
        subst (λ z. IsAnswer above signal asked (take 40 z)) (sym same)
          (cut-IsAnswer rs h (inr dead))
    | inr kept ↦
        subst (λ z. IsAnswer above signal asked (take 40 z)) (sym kept)
          (cut-IsAnswer _ (IsSorted-keep_if _ rs h)
            (inl (All-keep_if_test (λ r. ltb_ℤ (pos 0) r.seeders) rs)))
  ]

  keep_episode-fitting :
      (rs : List SearchResult)
      → All (λ r. (asked && ltb_ℤ (signal r.title) (pos 0)) ≡ false) (keep_episode signal asked rs)
  unfolding keep_episode
  keep_episode-fitting rs = elim (Bool-cases asked) [
    | inr film ↦ rw film (All_lem _ rs (λ r. refl))
    | inl series ↦ rw series (
        All-mono _ _ _ (λ r h. ground arith)
          (All-keep_if_test (λ r. not (ltb_ℤ (signal r.title) (pos 0))) rs))
  ]

  keep_episode-Differ :
      (rs : List SearchResult) → Pairwise Differ rs → Pairwise Differ (keep_episode signal asked rs)
  unfolding keep_episode
  keep_episode-Differ rs h = elim (Bool-cases asked) [
    | inr film ↦ rw film h
    | inl series ↦
        rw series (Pairwise-keep_if Differ (λ r. not (ltb_ℤ (signal r.title) (pos 0))) rs h)
  ]

  rank-IsAnswer :
      (rs : List SearchResult)
      → IsScoreOrder above
      → Pairwise Differ rs
      → IsAnswer above signal asked (rank above signal asked rs)
  unfolding rank sort_results
  rank-IsAnswer rs order h =
      let kept = keep_episode signal asked rs in
      let back = sort_back above [] kept in
      drop_dead-IsAnswer (reverse back) (record {
        ordered =
            Pairwise-reverse (λ a b. above b a ≡ false) back
              (sort_back-Pairwise above order [] kept tt);
        distinct = Pairwise-reverse Differ back (
            swap back (
              sort_back-Differ above [] kept (All_lem _ kept (λ r. tt)) (keep_episode-Differ rs h)
                tt));
        fitting = All-backwards _ back (sort_back-All above _ [] kept tt (keep_episode-fitting rs));
      })
    where
      swap : (xs : List SearchResult) → Pairwise Differ xs → Pairwise (λ a b. Differ b a) xs
      swap [] h = tt
      swap (x ∷ xs) h =
          (All-mono (Differ x) (λ b. Differ b x) xs (λ b. Differ-sym x b) h.0, swap xs h.1)

nothing-IsAnswer :
    (above : SearchResult → SearchResult → Bool) (signal : Bytes → ℤ) (asked : Bool)
    → IsAnswer above signal asked []
nothing-IsAnswer above signal asked = record {
  bounded = omega arith;
  ordered = tt;
  distinct = tt;
  live = inl tt;
  fitting = tt;
}

drain-Pairwise :
    (os : List Out) (d : Drained) → Pairwise Differ d.all → Pairwise Differ (drain os d).all
unfolding drain drain_one
drain-Pairwise [] d h = h
drain-Pairwise (o ∷ os) d h = drain-Pairwise os (drain_one o d) (one (Option-cases o.failed))
  where
    one :
        ((o.failed ≡ none) ⊎ ((e : Bytes) × (o.failed ≡ some e)))
        → Pairwise Differ (drain_one o d).all
    one (inl fine) = rw (fine, drain_one) (merge_all-Pairwise o.res d.all h)
    one (inr (e, bad)) = rw (bad, drain_one) h

-- With scores that are ordered: whatever arrives, searchAll answers with forty results at most, by
-- falling score, no two of one infohash, all of them alive or none, and none that names another
-- episode where a series and a season are asked for.
pub search_all-IsAnswer :
    (above : SearchResult → SearchResult → Bool) (signal : Bytes → ℤ)
    (arrived : List (Indexer × Bytes) → List Out) (ixs : List Indexer) (queries : List Bytes)
    (typ : Bytes) (season : ℤ)
    → IsScoreOrder above
    → IsAnswer above signal
        (bytes_eq typ (bytes "series") && ltb_ℤ (pos 0) season)
        (search_all above signal arrived ixs queries typ season).0
unfolding search_all
search_all-IsAnswer above signal arrived ixs [] typ season order = nothing-IsAnswer above signal _
search_all-IsAnswer above signal arrived ixs (q ∷ qs) typ season order =
    go (keep_if (λ ix. ix.enabled) ixs) refl
  where
    go :
        (enabled : List Indexer)
        → keep_if (λ ix. ix.enabled) ixs ≡ enabled
        → IsAnswer above signal
            (bytes_eq typ (bytes "series") && ltb_ℤ (pos 0) season)
            (search_all above signal arrived ixs (q ∷ qs) typ season).0
    go [] e = rw (e, search_all) (nothing-IsAnswer above signal _)
    go (ix ∷ rest) e =
        rw (e, search_all)
          (rank-IsAnswer above signal (bytes_eq typ (bytes "series") && ltb_ℤ (pos 0) season) _
            order
            (drain-Pairwise (arrived (launches (take 6 (q ∷ qs)) (ix ∷ rest)))
              (record { all = []; errs = [] }) tt))
