-- ===== src/Search/Repeated.antt =====
-- indexers.go: a search that is repeated within the time of the cache.
use bitlab.Prelude.{◌≡◌, refl, true, List, ◌∷◌, none, some, Bytes}
use bitlab.Prelude.Int.{ℤ, ◌+ℤ◌, ltb_ℤ}
use bitlab.Prelude.Assoc.{lookup, lookup-insert_self}
use bitlab.Search.Merge.{SearchResult}
use bitlab.Search.Cached.{
  Ask, IxCache, Found, ix_key, ix_ttl, redact, keep_answer, ask_source, search_indexer,
}

module _ (to_lower : Bytes → Bytes) (replace_all : Bytes → Bytes → Bytes)
    (query_escape : Bytes → Bytes) (uncached : Ask → Found) where
  -- The entry of the cache for a search.
  abbrev IsKept : Ask → ℤ → SearchResult → List SearchResult → IxCache → Type 0
  IsKept a later r rs m = lookup (ix_key to_lower a) m ≡ some (r ∷ rs, later +ℤ ix_ttl)

  ask_source-IsKept :
      (a : Ask) (later : ℤ) (m : IxCache) (r : SearchResult) (rs : List SearchResult)
      → uncached a ≡ (r ∷ rs, none)
      → IsKept a later r rs (ask_source to_lower replace_all query_escape uncached a later m).1
  unfolding ask_source keep_answer redact
  ask_source-IsKept a later m r rs h =
      rw h (lookup-insert_self (ix_key to_lower a) (r ∷ rs, later +ℤ ix_ttl) m)

  -- A search is asked of its source unless the cache has it.
  asked-IsKept :
      (a : Ask) (now later : ℤ) (m : IxCache) (r : SearchResult) (rs : List SearchResult)
      → lookup (ix_key to_lower a) m ≡ none
      → uncached a ≡ (r ∷ rs, none)
      → IsKept a later r rs
          (search_indexer to_lower replace_all query_escape uncached a now later m).1
  unfolding search_indexer
  asked-IsKept a now later m r rs missing h =
      rw (missing, search_indexer) (ask_source-IsKept a later m r rs h)

  -- Where the cache does not have a search, and its source answers with results: a call of
  -- searchIndexer less than three minutes after that answers with the same results, whatever any
  -- source would answer by then, and leaves the cache as it is.
  pub search_indexer-repeats :
      (a : Ask) (now later now' later' : ℤ) (m : IxCache) (r : SearchResult)
      (rs : List SearchResult) (uncached' : Ask → Found)
      → lookup (ix_key to_lower a) m ≡ none
      → uncached a ≡ (r ∷ rs, none)
      → ltb_ℤ now' (later +ℤ ix_ttl) ≡ true
      → search_indexer to_lower replace_all query_escape uncached' a now' later'
          (search_indexer to_lower replace_all query_escape uncached a now later m).1
        ≡ (
          (r ∷ rs, none),
          (search_indexer to_lower replace_all query_escape uncached a now later m).1,
        )
  unfolding search_indexer
  search_indexer-repeats a now later now' later' m r rs uncached' missing h soon =
      rw (asked-IsKept a now later m r rs missing h, search_indexer, soon) refl
