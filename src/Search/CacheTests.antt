-- ===== src/Search/CacheTests.antt =====
-- A search that is made twice within three minutes.
use bitlab.Prelude.{◌≡◌, refl, [], ◌∷◌, none, some, bytes, bytes_eq}
use bitlab.Prelude.Int.{pos, ◌+ℤ◌}
use bitlab.Prelude.Assoc.{lookup, insert, erase}
use bitlab.Prelude.Search.{to_lower, lower_byte}
use bitlab.Prelude.Decimal.{show_int, show_nat, digits_back}
use bitlab.Search.Merge.{SearchResult}
use bitlab.Search.Cached.{Ask, Found, ix_key, redact, keep_answer, ask_source, search_indexer}
use bitlab.Search.Repeated.{search_indexer-repeats}

program : Unit {0}
unfolding search_indexer ask_source keep_answer redact ix_key lookup insert erase to_lower
    lower_byte show_int show_nat digits_back bytes_eq ◌+ℤ◌
program = tt

abbrev ask : Ask
ask = record {
  kind = bytes "nyaa";
  url = bytes "https://nyaa.si";
  api_key = [];
  query = bytes "Film";
  typ = bytes "movie";
  season = pos 0;
  ep = pos 0;
  imdb_id = [];
}

abbrev film : SearchResult
film = record {
  title = bytes "Film";
  info_hash = bytes "aa";
  size = pos 1;
  seeders = pos 3;
  indexer = bytes "nyaa";
  magnet = [];
  trackers = [];
}

abbrev answers : Ask → Found
answers a = (film ∷ [], none)

abbrev fails : Ask → Found
fails a = ([], some (bytes "429"))

key_text : ix_key to_lower ask ≡ bytes "nyaa|https://nyaa.si|movie|0|0|film|"
unfolding program
key_text = refl

search_indexer-repeats_example :
    search_indexer to_lower
      (λ old s. s)
      (λ s. s)
      fails
      ask
      (pos 90_000_000_000)
      (pos 91_000_000_000)
      (search_indexer to_lower (λ old s. s) (λ s. s) answers ask (pos 0) (pos 1_000_000_000) []).1
    ≡ (
      (film ∷ [], none),
      (search_indexer to_lower (λ old s. s) (λ s. s) answers ask (pos 0) (pos 1_000_000_000) []).1,
    )
unfolding program
search_indexer-repeats_example =
    search_indexer-repeats to_lower (λ old s. s) (λ s. s) answers ask (pos 0) (pos 1_000_000_000)
      (pos 90_000_000_000) (pos 91_000_000_000) [] film [] fails refl refl refl
