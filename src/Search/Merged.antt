-- ===== src/Search/Merged.antt =====
-- indexers.go: what the merge of `searchAll` keeps.
use bitlab.Prelude.{
  ◌≡◌, refl, ap, ◌∙◌, false, List, [], ◌∷◌, Option, none, some, inl, inr, Bytes, bytes_eq,
  bytes_eq_iff, if◌then◌else◌, All, Bool-cases, arith,
}
use mathlib.Core.Path.{subst}
use bitlab.Prelude.Int.{ltb_ℤ}
use bitlab.Prelude.Pairs.{Pairwise}
use bitlab.Search.Merge.{SearchResult, merge_result, merge_all}

-- The result with an infohash.
unfoldable pub find_result : Bytes → List SearchResult → Option SearchResult
unfolding bytes_eq
find_result h [] = none
find_result h (x ∷ xs) =
    let rest = find_result h xs in if bytes_eq x.info_hash h then some x else rest

-- Of two results, the later where it has more seeders.
unfoldable pub more_seeders : SearchResult → Option SearchResult → Option SearchResult
more_seeders r none = some r
more_seeders r (some x) = if ltb_ℤ x.seeders r.seeders then some r else some x

-- The first of the results with an infohash that has the most seeders, from the best so far.
unfoldable pub best_of : Bytes → List SearchResult → Option SearchResult → Option SearchResult
unfolding more_seeders bytes_eq
best_of h [] best = best
best_of h (r ∷ rs) best =
    let better = best_of h rs (more_seeders r best) in
    let same = best_of h rs best in if bytes_eq r.info_hash h then better else same

find_result-merge_result :
    (h : Bytes) (r : SearchResult) (all : List SearchResult)
    → find_result h (merge_result r all)
      ≡ (if bytes_eq r.info_hash h then more_seeders r (find_result h all) else find_result h all)
unfolding find_result merge_result more_seeders
find_result-merge_result h r [] = ground arith
find_result-merge_result h r (x ∷ xs) = ground (
  arith,
  find_result-merge_result h r xs,
  bytes_eq_iff x.info_hash r.info_hash,
  bytes_eq_iff x.info_hash h,
  bytes_eq_iff r.info_hash h,
)

-- For each infohash, what the merge keeps of the results that arrive is the first of those that report
-- the most seeders, counted from what was there before.
pub merge_all-best_of :
    (h : Bytes) (rs all : List SearchResult)
    → bytes_eq [] h ≡ false
    → find_result h (merge_all rs all) ≡ best_of h rs (find_result h all)
unfolding merge_all best_of
merge_all-best_of h [] all named = refl
merge_all-best_of h (r ∷ rs) all named = elim (Bool-cases (bytes_eq r.info_hash [])) [
  | inl blank ↦
      rw (blank, (ap (λ z. bytes_eq z h) ((bytes_eq_iff r.info_hash []).0 blank)) ∙ named)
        (merge_all-best_of h rs all named)
  | inr full ↦ elim (Bool-cases (bytes_eq r.info_hash h)) [
    | inl same ↦
        rw (full, same)
          (merge_all-best_of h rs (merge_result r all) named
            ∙ ap (best_of h rs) (find_result-merge_result h r all ∙ rw same refl))
    | inr other ↦
        rw (full, other)
          (merge_all-best_of h rs (merge_result r all) named
            ∙ ap (best_of h rs) (find_result-merge_result h r all ∙ rw other refl))
  ]
]

-- No two results share an infohash.
abbrev pub Differ : SearchResult → SearchResult → Type 0
Differ a b = bytes_eq a.info_hash b.info_hash ≡ false

merge_result-All :
    (P : SearchResult → Type 0) (r : SearchResult) (all : List SearchResult)
    → P r
    → All P all
    → All P (merge_result r all)
unfolding merge_result
merge_result-All P r [] p h = (p, tt)
merge_result-All P r (x ∷ xs) p h = elim (Bool-cases (bytes_eq x.info_hash r.info_hash)) [
  | inr other ↦ rw other (h.0, merge_result-All P r xs p h.1)
  | inl same ↦ elim (Bool-cases (ltb_ℤ x.seeders r.seeders)) [
    | inl more ↦ rw (same, more) (p, h.1)
    | inr less ↦ rw (same, less) h
  ]
]

merge_result-Pairwise :
    (r : SearchResult) (all : List SearchResult)
    → Pairwise Differ all
    → Pairwise Differ (merge_result r all)
unfolding merge_result
merge_result-Pairwise r [] h = (tt, tt)
merge_result-Pairwise r (x ∷ xs) h = elim (Bool-cases (bytes_eq x.info_hash r.info_hash)) [
  | inr other ↦
      rw other (merge_result-All (Differ x) r xs other h.0, merge_result-Pairwise r xs h.1)
  | inl same ↦ elim (Bool-cases (ltb_ℤ x.seeders r.seeders)) [
    | inl more ↦
        rw (same, more)
          (
            subst (λ z. All (λ (b : SearchResult). bytes_eq z b.info_hash ≡ false) xs)
                ((bytes_eq_iff x.info_hash r.info_hash).0 same) h.0,
            h.1,
          )
    | inr less ↦ rw (same, less) h
  ]
]

pub merge_all-Pairwise :
    (rs all : List SearchResult) → Pairwise Differ all → Pairwise Differ (merge_all rs all)
unfolding merge_all
merge_all-Pairwise [] all h = h
merge_all-Pairwise (r ∷ rs) all h = elim (Bool-cases (bytes_eq r.info_hash [])) [
  | inl blank ↦ rw blank (merge_all-Pairwise rs all h)
  | inr full ↦ rw full (merge_all-Pairwise rs (merge_result r all) (merge_result-Pairwise r all h))
]

pub merge_all-All :
    (P : SearchResult → Type 0) (rs all : List SearchResult)
    → All P rs
    → All P all
    → All P (merge_all rs all)
unfolding merge_all
merge_all-All P [] all hr h = h
merge_all-All P (r ∷ rs) all hr h = elim (Bool-cases (bytes_eq r.info_hash [])) [
  | inl blank ↦ rw blank (merge_all-All P rs all hr.1 h)
  | inr full ↦
      rw full (merge_all-All P rs (merge_result r all) hr.1 (merge_result-All P r all hr.0 h))
]
