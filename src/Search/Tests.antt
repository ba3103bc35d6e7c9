-- ===== src/Search/Tests.antt =====
-- A search over two sources, and the properties there.
use bitlab.Prelude.{
  ◌≡◌, refl, Bool, true, false, ◌&&◌, List, [], ◌∷◌, none, some, Bytes, bytes, bytes_eq, map, arith,
}
use bitlab.Prelude.Int.{ℤ, pos, ltb_ℤ}
use bitlab.Search.Merge.{
  SearchResult, Out, merge_result, merge_all, drain_one, drain, drop_dead, keep_episode, move_left,
  sort_back, sort_results, rank,
}
use bitlab.Search.Fanout.{Indexer, indexer_timeout, queries_for, launches, search_all}
use bitlab.Search.Merged.{find_result, best_of, more_seeders, merge_all-best_of}
use bitlab.Search.Ranked.{IsScoreOrder, IsAnswer}
use bitlab.Search.Answer.{search_all-IsAnswer}

program : Unit {0}
unfolding search_all launches queries_for indexer_timeout rank sort_results sort_back move_left
    keep_episode drop_dead drain drain_one merge_all merge_result find_result best_of more_seeders
    bytes_eq
program = tt

abbrev release : Bytes → Bytes → ℤ → SearchResult
release title h n = record {
  title = title;
  info_hash = h;
  size = pos 1;
  seeders = n;
  indexer = bytes "yts";
  magnet = [];
  trackers = [];
}

-- The score is the number of seeders.
abbrev by_seeders : SearchResult → SearchResult → Bool
by_seeders a b = ltb_ℤ b.seeders a.seeders

by_seeders-IsScoreOrder : IsScoreOrder by_seeders
by_seeders-IsScoreOrder = record { asym = λ a b h. ground arith; trans = λ a b c h k. ground arith }

abbrev sources : List Indexer
sources =
    record { name = bytes "yts"; kind = bytes "yts"; enabled = true }
    ∷ record { name = bytes "nyaa"; kind = bytes "nyaa"; enabled = true }
    ∷ record { name = bytes "off"; kind = bytes "knaben"; enabled = false }
    ∷ []

abbrev arrived : List (Indexer × Bytes) → List Out
arrived launched =
    record {
      name = bytes "yts";
      res =
          release (bytes "film") (bytes "aa") (pos 100)
          ∷ release (bytes "dead") (bytes "bb") (pos 0)
          ∷ [];
      failed = none;
    }
    ∷ record {
      name = bytes "nyaa";
      res =
          release (bytes "film") (bytes "aa") (pos 900)
          ∷ release (bytes "cut") (bytes "cc") (pos 950)
          ∷ [];
      failed = none;
    }
    ∷ record { name = bytes "eztv"; res = []; failed = some (bytes "429") }
    ∷ []

abbrev queries : List Bytes
queries = bytes "film" ∷ bytes "movie" ∷ []

launches_three :
    map {B = Bytes × Bytes} (λ (l : Indexer × Bytes). (l.0.name, l.1)) (launches queries sources)
    ≡ (bytes "yts", bytes "film")
      ∷ (bytes "nyaa", bytes "film")
      ∷ (bytes "nyaa", bytes "movie")
      ∷ (bytes "off", bytes "film")
      ∷ (bytes "off", bytes "movie")
      ∷ []
unfolding program
launches_three = refl

answers_two :
    search_all by_seeders (λ title. pos 0) arrived sources queries (bytes "movie") (pos 0) ≡ (
      release (bytes "cut") (bytes "cc") (pos 950)
          ∷ release (bytes "film") (bytes "aa") (pos 900)
          ∷ [],
      bytes "eztv: 429" ∷ [],
    )
unfolding program
answers_two = refl

refuses_nothing :
    search_all by_seeders (λ title. pos 0) arrived [] queries (bytes "movie") (pos 0)
    ≡ ([], bytes "no indexers configured" ∷ [])
unfolding program
refuses_nothing = refl

search_all-IsAnswer_example :
    IsAnswer by_seeders
      (λ title. pos 0)
      (bytes_eq (bytes "series") (bytes "series") && ltb_ℤ (pos 0) (pos 2))
      (search_all by_seeders (λ title. pos 0) arrived sources queries (bytes "series") (pos 2)).0
search_all-IsAnswer_example =
    search_all-IsAnswer by_seeders (λ title. pos 0) arrived sources queries (bytes "series") (pos 2)
      by_seeders-IsScoreOrder

abbrev twice : List SearchResult
twice =
    release (bytes "film") (bytes "aa") (pos 100)
    ∷ release (bytes "film") (bytes "aa") (pos 900)
    ∷ []

merge_all-best_of_example :
    find_result (bytes "aa") (merge_all twice []) ≡ best_of (bytes "aa") twice none
unfolding program
merge_all-best_of_example = merge_all-best_of (bytes "aa") twice [] refl
