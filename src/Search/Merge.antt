-- ===== src/Search/Merge.antt =====
-- indexers.go: the merge, the ranking and the cut of `searchAll`, `dropDead` and `sortResults`. A
-- score is a float of the result and the request; the ranking reads it through the comparison of
-- two scores, which is a parameter, as is the judgement of `episodeSignal`.
use bitlab.Prelude.{
  Bool, List, [], ◌∷◌, ◌++◌, Option, none, some, Bytes, bytes, bytes_eq, if◌then◌else◌, take,
  keep_if, not,
}
use mathlib.Core.List.{reverse}
use bitlab.Prelude.Int.{ℤ, pos, ltb_ℤ}

-- `Result`, less its score.
pub record SearchResult : Type 0 where
  pub title : Bytes
  pub info_hash : Bytes
  pub size : ℤ
  pub seeders : ℤ
  pub indexer : Bytes
  pub magnet : Bytes
  pub trackers : List Bytes

-- What a source sends: its name, and results or an error.
pub record Out : Type 0 where
  pub name : Bytes
  pub res : List SearchResult
  pub failed : Option Bytes

-- A result that has an infohash, against those that are there: `seen` has the place of each infohash.
unfoldable pub merge_result : SearchResult → List SearchResult → List SearchResult
unfolding bytes_eq
merge_result r [] = r ∷ []
merge_result r (x ∷ xs) =
    let rest = merge_result r xs in
    if bytes_eq x.info_hash r.info_hash
    then (if ltb_ℤ x.seeders r.seeders then r ∷ xs else x ∷ xs)
    else x ∷ rest

unfoldable pub merge_all : List SearchResult → List SearchResult → List SearchResult
unfolding merge_result bytes_eq
merge_all [] all = all
merge_all (r ∷ rs) all =
    let skipped = merge_all rs all in
    let merged = merge_all rs (merge_result r all) in
    if bytes_eq r.info_hash [] then skipped else merged

-- `all` and `errs`.
pub record Drained : Type 0 where
  pub all : List SearchResult
  pub errs : List Bytes

unfoldable pub drain_one : Out → Drained → Drained
unfolding merge_all
drain_one o d = elim o.failed [
  | some e ↦ record d { errs = d.errs ++ (o.name ++ (bytes ": " ++ e)) ∷ [] }
  | none ↦ record d { all = merge_all o.res d.all }
]

-- The loop `drain`, over what has arrived.
unfoldable pub drain : List Out → Drained → Drained
unfolding drain_one
drain [] d = d
drain (o ∷ os) d = drain os (drain_one o d)

-- `dropDead`.
unfoldable pub drop_dead : List SearchResult → List SearchResult
drop_dead rs = elim (keep_if (λ r. ltb_ℤ (pos 0) r.seeders) rs) [ [] ↦ rs | r ∷ live ↦ r ∷ live ]

-- The filter by episode.
unfoldable pub keep_episode : (Bytes → ℤ) → Bool → List SearchResult → List SearchResult
keep_episode signal asked rs =
    if asked then keep_if (λ r. not (ltb_ℤ (signal r.title) (pos 0))) rs else rs

module _ (above : SearchResult → SearchResult → Bool) where
  -- The inner loop of `sortResults`: a result moves left along those before it, the nearest first.
  unfoldable pub move_left : SearchResult → List SearchResult → List SearchResult
  move_left r [] = r ∷ []
  move_left r (x ∷ xs) = let moved = move_left r xs in if above r x then x ∷ moved else r ∷ x ∷ xs

  -- The outer loop, with the sorted part backwards.
  unfoldable pub sort_back : List SearchResult → List SearchResult → List SearchResult
  unfolding move_left
  sort_back back [] = back
  sort_back back (r ∷ rs) = sort_back (move_left r back) rs

  -- `sortResults`.
  unfoldable pub sort_results : List SearchResult → List SearchResult
  unfolding sort_back
  sort_results rs = reverse (sort_back [] rs)

  -- What `searchAll` makes of the merged results.
  unfoldable pub rank : (Bytes → ℤ) → Bool → List SearchResult → List SearchResult
  unfolding drop_dead sort_results keep_episode
  rank signal asked rs = take 40 (drop_dead (sort_results (keep_episode signal asked rs)))
