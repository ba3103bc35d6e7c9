-- ===== src/Engine/Choose.antt =====
-- engine.go: which file of a torrent is served. The two slices `paths` and `sizes`, which the callers
-- fill together, are one list of files; a path separator is a slash.
use bitlab.Prelude.{
  ℕ, suc, ◌==◌, Bool, true, ◌&&◌, not, List, [], ◌∷◌, Option, none, some, Bytes, bytes, bytes_eq,
  if◌then◌else◌, ltb, length, any,
}
use mathlib.Core.List.{reverse}
use bitlab.Prelude.Int.{ℤ, pos, negsuc, eqb_ℤ, ltb_ℤ, leb_ℤ}
use bitlab.Prelude.Search.{to_lower, has_text}
use bitlab.Prelude.Decimal.{atoi_value}

pub record File : Type 0 where
  pub path : Bytes
  pub size : ℤ

-- What the two functions return: a position, or an error.
pub data Choice : Type 0 where
  chosen : ℕ → Choice
  no_files : Choice
  no_playable : Choice
  no_episode : Choice

-- `filepath.Ext`, from the end of the path.
unfoldable pub ext_back : Bytes → Bytes → Bytes
ext_back [] ext = []
ext_back (b ∷ s) ext =
    let more = ext_back s (b ∷ ext) in if b == 47 then [] else (if b == 46 then 46 ∷ ext else more)

unfoldable pub file_ext : Bytes → Bytes
unfolding ext_back
file_ext path = ext_back (reverse path) []

-- `filepath.Base`, from the end of the path: first without its slashes, then up to the next one.
unfoldable pub base_back : Bytes → Bytes → Bytes
base_back [] name = name
base_back (b ∷ s) name = let more = base_back s (b ∷ name) in if b == 47 then name else more

unfoldable pub skip_slashes : Bytes → Bytes
skip_slashes [] = []
skip_slashes (b ∷ s) = let more = skip_slashes s in if b == 47 then more else b ∷ s

unfoldable pub file_base : Bytes → Bytes
unfolding base_back skip_slashes
file_base [] = bytes "."
file_base (b ∷ path) = elim (skip_slashes (reverse (b ∷ path))) [
  | [] ↦ bytes "/"
  | c ∷ s ↦ base_back (c ∷ s) []
]

-- `videoExts`.
abbrev pub video_exts : List Bytes
video_exts =
    bytes ".mp4"
    ∷ bytes ".mkv"
    ∷ bytes ".avi"
    ∷ bytes ".mov"
    ∷ bytes ".m4v"
    ∷ bytes ".webm"
    ∷ bytes ".ts"
    ∷ bytes ".wmv"
    ∷ bytes ".mpg"
    ∷ bytes ".mpeg"
    ∷ bytes ".flv"
    ∷ []

-- `isVideo`.
unfoldable pub is_video : Bytes → Bool
unfolding file_ext to_lower bytes_eq
is_video p = any (bytes_eq (to_lower (file_ext p))) video_exts

-- `want >= 0 && want < len(paths)`.
unfoldable pub wanted_index : ℤ → ℕ → Option ℕ
wanted_index (pos n) len = if ltb n len then some n else none
wanted_index (negsuc n) len = none

-- The two tests of the first loop of `chooseFile`.
unfoldable pub is_playable : List File → File → Bool
unfolding is_video to_lower has_text
is_playable fs f =
    let lp = to_lower f.path in
    is_video lp && not (has_text lp (bytes "sample") && ltb 1 (length fs))

-- `if best < 0 || sizes[i] > sizes[best]`: the best position so far, with its size.
unfoldable pub larger : ℕ → File → Option (ℕ × ℤ) → Option (ℕ × ℤ)
larger i f none = some (i, f.size)
larger i f (some (j, s)) = if ltb_ℤ s f.size then some (i, f.size) else some (j, s)

-- Either loop of `chooseFile`, over the files that pass a test.
unfoldable pub largest : (File → Bool) → ℕ → List File → Option (ℕ × ℤ) → Option (ℕ × ℤ)
unfolding larger
largest p i [] best = best
largest p i (f ∷ fs) best = largest p (suc i) fs (if p f then larger i f best else best)

-- The second loop, and the check after it.
unfoldable pub choose_any : List File → Choice
unfolding largest
choose_any fs = elim (largest (λ f. true) 0 fs none) [ none ↦ no_playable | some (i, s) ↦ chosen i ]

-- What `chooseFile` does where no index is given.
unfoldable pub choose_largest : List File → Choice
unfolding largest is_playable choose_any
choose_largest fs = elim (largest (is_playable fs) 0 fs none) [
  | none ↦ choose_any fs
  | some (i, s) ↦ chosen i
]

-- `chooseFile`.
unfoldable pub choose_file : List File → ℤ → Choice
unfolding choose_largest wanted_index
choose_file [] want = no_files
choose_file (f ∷ fs) want = elim (wanted_index want (length (f ∷ fs))) [
  | some n ↦ chosen n
  | none ↦ choose_largest (f ∷ fs)
]

-- What the loop of `chooseFileForEpisode` ends with: a file, or its two counts.
pub data Scan : Type 0 where
  found : ℕ → Scan
  counted : ℕ → ℕ → Scan

-- What `fileSignal` takes from elsewhere: `episodeSignal`, and the submatch of `reFileEpNum`, where
-- it matches.
pub record Judge : Type 0 where
  pub episode_signal : Bytes → ℤ → ℤ → ℤ
  pub head_number : Bytes → Option Bytes

module _ (j : Judge) where
  unfoldable pub head_signal : Bytes → ℤ → ℤ
  unfolding atoi_value
  head_signal base ep = elim (j.head_number base) [
    | none ↦ pos 0
    | some m ↦ if eqb_ℤ (atoi_value m) ep then pos 1 else negsuc 0
  ]

  -- `fileSignal`.
  unfoldable pub file_signal : Bytes → ℤ → ℤ → ℤ
  unfolding head_signal file_base
  file_signal path season ep =
      let base = file_base path in
      let sig = j.episode_signal base season ep in
      if leb_ℤ ep (pos 0)
      then pos 0
      else (if not (eqb_ℤ sig (pos 0)) then sig else head_signal base ep)

  -- The loop of `chooseFileForEpisode`.
  unfoldable pub scan_episode : ℤ → ℤ → ℕ → List File → ℕ → ℕ → Scan
  unfolding file_signal is_video
  scan_episode season ep i [] numbered videos = counted numbered videos
  scan_episode season ep i (f ∷ fs) numbered videos =
      let sig = file_signal f.path season ep in
      let skipped = scan_episode season ep (suc i) fs numbered videos in
      let silent = scan_episode season ep (suc i) fs numbered (suc videos) in
      let other = scan_episode season ep (suc i) fs (suc numbered) (suc videos) in
      if not (is_video f.path)
      then skipped
      else (if ltb_ℤ (pos 0) sig then found i else (if ltb_ℤ sig (pos 0) then other else silent))

  -- What `chooseFileForEpisode` makes of the loop.
  unfoldable pub after_scan : List File → ℤ → Scan → Choice
  unfolding choose_file
  after_scan fs want (found i) = chosen i
  after_scan fs want (counted numbered videos) =
      if ltb 0 numbered
      then no_episode
      else (if ltb 3 videos then no_episode else choose_file fs want)

  -- `chooseFileForEpisode`.
  unfoldable pub choose_file_for_episode : List File → ℤ → ℤ → ℤ → Choice
  unfolding scan_episode after_scan choose_file wanted_index
  choose_file_for_episode fs want season ep = elim (wanted_index want (length fs)) [
    | some n ↦ chosen n
    | none ↦
        if ltb_ℤ (pos 0) ep
        then after_scan fs want (scan_episode season ep 0 fs 0 0)
        else choose_file fs want
  ]
