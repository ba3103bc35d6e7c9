-- ===== src/Engine/ChoiceTests.antt =====
-- Files that the engine chooses, range headers, and an idle pass; the properties there.
use bitlab.Prelude.{
  ℕ, ◌≡◌, refl, true, false, List, [], ◌∷◌, none, some, ◌⊎◌, ◌==◌, length, Bytes, bytes, bytes_eq,
  has_prefix, arith,
}
use bitlab.Prelude.Int.{pos, negsuc, ◌-ℤ◌}
use bitlab.Prelude.Assoc.{lookup, insert, erase}
use bitlab.Prelude.Trim.{trim_space, trim_left, trim_back}
use bitlab.Prelude.Search.{to_lower, lower_byte, index_where, has_text, trim_prefix}
use bitlab.Prelude.Decimal.{
  parse_int, atoi_value, limited, positive, negative, digits_value, is_digit, show_nat, digits_back,
}
use bitlab.Cache.Plan.{since}
use bitlab.Engine.State.{Torrent, Engine, find_torrent, drop_torrent, activity, new_activity}
use bitlab.Engine.Choose.{
  File, chosen, no_episode, ext_back, file_ext, base_back, skip_slashes, file_base, is_video,
  wanted_index, is_playable, larger, largest, choose_any, choose_largest, choose_file, Judge,
  head_signal, file_signal, scan_episode, after_scan, choose_file_for_episode,
}
use bitlab.Engine.Chosen.{IsBestChoice, choose_file-chosen, IsFit, choose_file_for_episode-IsFit}
use bitlab.Engine.Title.{
  is_alnum, pieces, words_of, hint_words, join_spaces, name_words, has_word, word_scan, is_telling,
  telling_words, count_hits, ties_larger, better_title, title_step, best_title, choose_title,
  choose_file_for_title,
}
use bitlab.Engine.Titled.{IsTitled, choose_file_for_title-IsTitled}
use bitlab.Engine.RangeHeader.{cut_comma, start_before, range_start, min_int, sniff_container}
use bitlab.Engine.RangeRead.{range_header, range_start-range_header}
use bitlab.Engine.Reap.{
  needs_warning, measure, warn, is_idle, drop_idle, reap_one, reap_all, reap_idle,
}
use bitlab.Engine.ReapPass.{Outcome, reap_idle-Outcome}

program : Unit {0}
unfolding choose_file choose_largest choose_any largest larger is_playable wanted_index is_video
    file_base skip_slashes base_back file_ext ext_back choose_file_for_episode after_scan
    scan_episode file_signal head_signal choose_file_for_title choose_title best_title title_step
    better_title ties_larger count_hits telling_words is_telling word_scan has_word name_words
    join_spaces hint_words words_of pieces is_alnum range_start start_before cut_comma min_int
    sniff_container reap_idle reap_all reap_one drop_idle is_idle warn needs_warning measure since
    ◌-ℤ◌ activity find_torrent drop_torrent lookup insert erase to_lower lower_byte index_where
    has_text trim_prefix parse_int atoi_value limited positive negative digits_value is_digit
    show_nat digits_back trim_space trim_left trim_back bytes_eq has_prefix
program = tt

abbrev file : Bytes → ℕ → File
file p n = record { path = p; size = pos n }

-- A judge that knows the bare numbers of two digits at the head of a name.
abbrev head_judge : Judge
head_judge = record {
  episode_signal = λ name season ep. pos 0;
  head_number = λ name. elim name [
    | [] ↦ none
    | a ∷ s ↦ elim s [
      | [] ↦ none
      | b ∷ t ↦ elim (a == 48) [ true ↦ some (a ∷ b ∷ []) | false ↦ none ]
    ]
  ];
}

abbrev pack : List File
pack =
    file (bytes "Show/sample.mkv") 900
    ∷ file (bytes "Show/01.mkv") 500
    ∷ file (bytes "Show/02.MKV") 400
    ∷ file (bytes "Show/info.txt") 999
    ∷ []

takes_largest : choose_file pack (negsuc 0) ≡ chosen 1
unfolding program
takes_largest = refl

takes_second : choose_file_for_episode head_judge pack (negsuc 0) (pos 1) (pos 2) ≡ chosen 2
unfolding program
takes_second = refl

refuses_third : choose_file_for_episode head_judge pack (negsuc 0) (pos 1) (pos 3) ≡ no_episode
unfolding program
refuses_third = refl

abbrev trilogy : List File
trilogy = file (bytes "Zero - Frozen Bond.mkv") 900 ∷ file (bytes "Zero - Memory Snow.mkv") 700 ∷ []

abbrev snow : List Bytes
snow = bytes "Zero: Memory Snow" ∷ []

takes_title : choose_file_for_title trilogy (negsuc 0) snow ≡ chosen 1
unfolding program
takes_title = refl

sniffs_matroska :
    sniff_container (26 ∷ 69 ∷ 223 ∷ 163 ∷ []) ≡ (bytes ".mkv", bytes "video/x-matroska")
unfolding program
sniffs_matroska = refl

rejects_suffix_range : range_start (bytes "bytes=-500") ≡ none
unfolding program
rejects_suffix_range = refl

abbrev hash_a : Bytes
hash_a = bytes "aa"

abbrev torrent_a : Torrent
torrent_a = record {
  hash = hash_a;
  info = none;
  total_length = pos 0;
  completed = pos 0;
  active_peers = pos 0;
}

abbrev idle_engine : Engine
idle_engine = record {
  client = torrent_a ∷ [];
  act = (hash_a, new_activity (pos 5)) ∷ [];
  add_locks = hash_a ∷ [];
  trackers = [];
  max_torrents = pos 2;
  idle_timeout = pos 100;
}

choose_file-chosen_example :
    (i : ℕ) × ((choose_file pack (negsuc 0) ≡ chosen i)
      × ((wanted_index (negsuc 0) (length pack) ≡ some i)
          ⊎ ((wanted_index (negsuc 0) (length pack) ≡ none) × IsBestChoice pack i)))
choose_file-chosen_example =
    choose_file-chosen (file (bytes "Show/sample.mkv") 900)
      (file (bytes "Show/01.mkv") 500
        ∷ file (bytes "Show/02.MKV") 400
        ∷ file (bytes "Show/info.txt") 999
        ∷ [])
      (negsuc 0)

choose_file_for_episode-IsFit_example : IsFit head_judge (pos 1) (pos 2) pack 2
unfolding program
choose_file_for_episode-IsFit_example =
    choose_file_for_episode-IsFit head_judge (pos 1) (pos 2) pack (negsuc 0) 2 refl refl refl

choose_file_for_title-IsTitled_example :
    IsTitled trilogy (negsuc 0) (hint_words (join_spaces snow)) 1
unfolding program
choose_file_for_title-IsTitled_example =
    choose_file_for_title-IsTitled trilogy (negsuc 0) snow 1 refl takes_title

range_start-range_header_example :
    range_start (range_header 1_048_576 (bytes "2097151,0-5")) ≡ some (pos 1_048_576)
unfolding program
range_start-range_header_example =
    range_start-range_header 1_048_576 (bytes "2097151,0-5") (omega arith)
      (refl, (refl, (refl, (refl, (refl, (refl, (refl, (refl, (refl, (refl, (refl, tt)))))))))))

reap_idle-Outcome_example :
    Outcome
      (is_idle (pos 100) (pos 200) (new_activity (pos 5)))
      hash_a
      torrent_a
      (new_activity (pos 5))
      (reap_idle (pos 200) idle_engine)
unfolding program
reap_idle-Outcome_example =
    reap_idle-Outcome (pos 200) idle_engine hash_a torrent_a (new_activity (pos 5)) (refl, tt) refl
      refl
