-- ===== src/Search/Cached.antt =====
-- indexers.go: `searchIndexer`. What `searchIndexerUncached` answers, `strings.ToLower`, `strings.ReplaceAll`
-- and `url.QueryEscape` are parameters; a call reads the clock at its start and at its end.
use bitlab.Prelude.{◌++◌, List, [], ◌∷◌, Option, none, some, Bytes, bytes_eq, if◌then◌else◌}
use bitlab.Prelude.Int.{ℤ, pos, ◌+ℤ◌, ltb_ℤ}
use bitlab.Prelude.Assoc.{Assoc, lookup, insert, erase}
use bitlab.Prelude.Decimal.{show_int}
use bitlab.Search.Merge.{SearchResult}

-- What a search depends on.
pub record Ask : Type 0 where
  pub kind : Bytes
  pub url : Bytes
  pub api_key : Bytes
  pub query : Bytes
  pub typ : Bytes
  pub season : ℤ
  pub ep : ℤ
  pub imdb_id : Bytes

-- `ixCache`: results and their expiry.
abbrev pub IxCache : Type 0
IxCache = Assoc (List SearchResult × ℤ)

-- Results, and an error.
abbrev pub Found : Type 0
Found = List SearchResult × Option Bytes

-- The key of the cache.
unfoldable pub ix_key : (Bytes → Bytes) → Ask → Bytes
unfolding show_int
ix_key to_lower a =
    a.kind
    ++ 124
      ∷ (a.url
          ++ 124
            ∷ (a.typ
                ++ 124
                  ∷ (show_int a.season
                      ++ 124 ∷ (show_int a.ep ++ 124 ∷ (to_lower a.query ++ 124 ∷ a.imdb_id)))))

-- Three minutes.
abbrev pub ix_ttl : ℤ
ix_ttl = pos 180_000_000_000

module _ (to_lower : Bytes → Bytes) (replace_all : Bytes → Bytes → Bytes)
    (query_escape : Bytes → Bytes) where
  -- An error without the key of the indexer; `replace_all old s` puts "[redacted]" in its place.
  unfoldable pub redact : Ask → Option Bytes → Option Bytes
  unfolding bytes_eq
  redact a none = none
  redact a (some e) =
      if bytes_eq a.api_key []
      then some e
      else some (replace_all (query_escape a.api_key) (replace_all a.api_key e))

  -- What is kept of an answer.
  unfoldable pub keep_answer : Bytes → ℤ → Found → IxCache → IxCache
  unfolding insert ◌+ℤ◌
  keep_answer ck now (res, some e) m = m
  keep_answer ck now ([], none) m = m
  keep_answer ck now (r ∷ rs, none) m = insert ck (r ∷ rs, now +ℤ ix_ttl) m

  module _ (uncached : Ask → Found) where
    unfoldable pub ask_source : Ask → ℤ → IxCache → Found × IxCache
    unfolding redact keep_answer ix_key
    ask_source a later m =
        let (res, failed) = uncached a in
        let answer : Found = (res, redact a failed) in
        (answer, keep_answer (ix_key to_lower a) later answer m)

    -- `searchIndexer`, from the time of its start to that of its end.
    unfoldable pub search_indexer : Ask → ℤ → ℤ → IxCache → Found × IxCache
    unfolding ask_source ix_key lookup erase
    search_indexer a now later m = elim (lookup (ix_key to_lower a) m) [
      | none ↦ ask_source a later m
      | some (res, exp) ↦
          if ltb_ℤ now exp
          then ((res, none), m)
          else ask_source a later (erase (ix_key to_lower a) m)
    ]
