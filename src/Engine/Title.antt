-- ===== src/Engine/Title.antt =====
-- engine.go: `chooseFileForTitle`, and `hintWords` of relevance.go.
use bitlab.Prelude.{
  ℕ, suc, ◌==◌, Bool, true, false, ◌&&◌, ◌||◌, not, List, [], ◌∷◌, ◌++◌, map, Option, none, some,
  Bytes, bytes, bytes_eq, if◌then◌else◌, leb, ltb, length, any, keep_if,
}
use bitlab.Prelude.Int.{ℤ, ltb_ℤ}
use bitlab.Prelude.Search.{to_lower, onto_first}
use bitlab.Engine.Choose.{File, Choice, chosen, file_base, is_video, wanted_index, choose_file}

-- The complement of `[^a-z0-9]`.
unfoldable pub is_alnum : ℕ → Bool
is_alnum b = (leb 97 b && leb b 122) || (leb 48 b && leb b 57)

-- `reNonAlnum.Split(s, -1)`, less empty pieces, which both callers drop: the runs of letters and digits.
unfoldable pub pieces : Bytes → List Bytes
unfolding is_alnum
pieces [] = [] ∷ []
pieces (b ∷ s) = let rest = pieces s in if is_alnum b then onto_first b rest else [] ∷ rest

unfoldable pub words_of : Bytes → List Bytes
unfolding pieces bytes_eq
words_of s = keep_if (λ w. not (bytes_eq w [])) (pieces s)

abbrev pub stop_words : List Bytes
stop_words =
    bytes ""
    ∷ bytes "the"
    ∷ bytes "and"
    ∷ bytes "of"
    ∷ bytes "to"
    ∷ bytes "in"
    ∷ bytes "a"
    ∷ bytes "an"
    ∷ []

-- `hintWords`.
unfoldable pub hint_words : Bytes → List Bytes
unfolding words_of to_lower bytes_eq
hint_words s =
    keep_if (λ w. not (any (bytes_eq w) stop_words) && not (ltb (length w) 2))
      (words_of (to_lower s))

-- `strings.Join(hints, " ")`.
unfoldable pub join_spaces : List Bytes → Bytes
join_spaces [] = []
join_spaces (s ∷ []) = s
join_spaces (s ∷ t ∷ rest) = s ++ 32 ∷ join_spaces (t ∷ rest)

-- The set of words of a file; a file that is no video has none.
unfoldable pub name_words : File → Option (List Bytes)
unfolding is_video words_of to_lower file_base
name_words f = if is_video f.path then some (words_of (to_lower (file_base f.path))) else none

unfoldable pub has_word : Bytes → List Bytes → Bool
unfolding bytes_eq
has_word w set = any (bytes_eq w) set

-- The loop over the sets for one word, with `inAll` and `any`.
unfoldable pub word_scan : Bytes → List (Option (List Bytes)) → Bool → Bool → Bool × Bool
unfolding has_word
word_scan w [] in_all any_set = (in_all, any_set)
word_scan w (none ∷ sets) in_all any_set = word_scan w sets in_all any_set
word_scan w (some set ∷ sets) in_all any_set =
    let rest = word_scan w sets in_all true in if has_word w set then rest else (false, true)

-- A word that not every video has, where there is a video.
unfoldable pub is_telling : List (Option (List Bytes)) → Bytes → Bool
unfolding word_scan
is_telling sets w = let (in_all, any_set) = word_scan w sets true false in any_set && not in_all

unfoldable pub telling_words : List File → List Bytes → List Bytes
unfolding is_telling name_words
telling_words fs words = keep_if (is_telling (map name_words fs)) words

unfoldable pub count_hits : List Bytes → List Bytes → ℕ
unfolding has_word
count_hits disc set = length (keep_if (λ w. has_word w set) disc)

-- The best file so far: its position, its size and its hits.
pub record Top : Type 0 where
  pub at : ℕ
  pub top_size : ℤ
  pub hits : ℕ

abbrev pub best_hits : Option Top → ℕ
best_hits none = 0
best_hits (some t) = t.hits

-- `best >= 0 && hits > 0 && sizes[i] > sizes[best]`.
unfoldable pub ties_larger : ℕ → File → Option Top → Bool
ties_larger hits f none = false
ties_larger hits f (some t) = ltb 0 hits && ltb_ℤ t.top_size f.size

-- The body of the last loop, for a video.
unfoldable pub better_title : ℕ → File → ℕ → Option Top → Option Top
unfolding ties_larger
better_title i f hits best =
    if ltb (best_hits best) hits || (hits == best_hits best && ties_larger hits f best)
    then some (record { at = i; top_size = f.size; hits = hits })
    else best

unfoldable pub title_step : List Bytes → ℕ → File → Option Top → Option Top
unfolding name_words count_hits better_title
title_step disc i f best = elim (name_words f) [
  | none ↦ best
  | some set ↦ better_title i f (count_hits disc set) best
]

unfoldable pub best_title : List Bytes → ℕ → List File → Option Top → Option Top
unfolding title_step
best_title disc i [] best = best
best_title disc i (f ∷ fs) best = best_title disc (suc i) fs (title_step disc i f best)

-- What is done where no index is given and there are words.
unfoldable pub choose_title : List File → ℤ → List Bytes → Choice
unfolding best_title telling_words choose_file
choose_title fs want words = elim (best_title (telling_words fs words) 0 fs none) [
  | none ↦ choose_file fs want
  | some t ↦ if ltb 0 t.hits then chosen t.at else choose_file fs want
]

-- `chooseFileForTitle`.
unfoldable pub choose_file_for_title : List File → ℤ → List Bytes → Choice
unfolding wanted_index hint_words join_spaces choose_title choose_file
choose_file_for_title fs want hints = elim (wanted_index want (length fs)) [
  | some n ↦ chosen n
  | none ↦ elim (hint_words (join_spaces hints)) [
    | [] ↦ choose_file fs want
    | w ∷ ws ↦ choose_title fs want (w ∷ ws)
  ]
]
