-- ===== src/Search/Fanout.antt =====
-- indexers.go: `queriesFor`, `indexerTimeout` and `searchAll`.
use bitlab.Prelude.{
  ℕ, Bool, ◌&&◌, List, [], ◌∷◌, ◌++◌, map, Bytes, bytes, bytes_eq, if◌then◌else◌, take, keep_if,
  any,
}
use bitlab.Prelude.Int.{ℤ, pos, ltb_ℤ}
use bitlab.Search.Merge.{SearchResult, Out, drain, rank}

-- What is read of an `Indexer`.
pub record Indexer : Type 0 where
  pub name : Bytes
  pub kind : Bytes
  pub enabled : Bool

-- `indexerTimeout`, in seconds.
unfoldable pub indexer_timeout : Bytes → ℕ
unfolding bytes_eq
indexer_timeout kind =
    if bytes_eq kind (bytes "animetosho")
    then 6
    else (if any (bytes_eq kind) (bytes "eztv" ∷ bytes "yts" ∷ bytes "torrentio" ∷ [])
        then 10
        else 15)

-- `queriesFor`.
unfoldable pub queries_for : Bytes → List Bytes → List Bytes
unfolding bytes_eq
queries_for kind queries =
    if any (bytes_eq kind) (bytes "eztv" ∷ bytes "yts" ∷ bytes "torrentio" ∷ [])
    then take 1 queries
    else (if any (bytes_eq kind) (bytes "nyaa" ∷ bytes "apibay" ∷ bytes "animetosho" ∷ [])
        then take 3 queries
        else queries)

-- The searches that are launched, in order.
unfoldable pub launches : List Bytes → List Indexer → List (Indexer × Bytes)
unfolding queries_for
launches queries [] = []
launches queries (ix ∷ ixs) =
    map (λ q. (ix, q)) (queries_for ix.kind queries) ++ launches queries ixs

-- What `searchAll` answers, once `arrived` gives what has come of the searches launched when the
-- wait ends; the second list has the errors.
unfoldable pub search_all :
    (SearchResult → SearchResult → Bool)
    → (Bytes → ℤ)
    → (List (Indexer × Bytes) → List Out)
    → List Indexer
    → List Bytes
    → Bytes
    → ℤ
    → List SearchResult × List Bytes
unfolding launches drain rank bytes_eq
search_all above signal arrived ixs [] typ season = ([], bytes "empty query" ∷ [])
search_all above signal arrived ixs (q ∷ qs) typ season = elim (keep_if (λ ix. ix.enabled) ixs) [
  | [] ↦ ([], bytes "no indexers configured" ∷ [])
  | ix ∷ rest ↦
      let d =
        drain (arrived (launches (take 6 (q ∷ qs)) (ix ∷ rest))) (record { all = []; errs = [] }) in
      (rank above signal (bytes_eq typ (bytes "series") && ltb_ℤ (pos 0) season) d.all, d.errs)
]
