-- ===== src/Engine/Reader.antt =====
-- engine.go: `sizedReader`, the reader of one file of a torrent. The reader below it, of the torrent
-- client, is a parameter: what its `Read` answers at a place of the file for a buffer of a given
-- length (the count, and whether the error is nil), and whether its `Seek` succeeds.
use bitlab.Prelude.{ℕ, zero, suc, Bool, true, false, ◌&&◌, if◌then◌else◌, ltb, Option, none, some}
use bitlab.Prelude.Int.{ℤ, pos, negsuc, ◌-ℤ◌, ltb_ℤ, leb_ℤ, add64, sub64}

-- `sizedReader`, with the place of the reader below it.
pub record SizedReader : Type 0 where
  pub size : ℤ
  pub position : ℤ
  pub last_access : ℤ
  pub source_at : ℤ

-- The answers of `Read`: end of file, or a count and whether the error is nil.
pub data ReadResult : Type 0 where
  end_of_file : ReadResult
  read_bytes : ℕ → Bool → ReadResult

-- The answers of `Seek`.
pub data SeekResult : Type 0 where
  sought : ℤ → SeekResult
  bad_whence : SeekResult
  negative_seek : SeekResult
  source_failed : SeekResult

-- `if int64(len(p)) > s.size-s.pos { p = p[:s.size-s.pos] }`: the length of the buffer, where the
-- difference is not negative.
unfoldable pub clip : ℕ → ℤ → ℕ
clip len (pos n) = if ltb n len then n else len
clip len (negsuc n) = 0

-- What `Read` does after the reader below it has answered; the flag tells whether `onAccess` ran.
unfoldable pub advance : Bool → ℤ → ℕ × Bool → SizedReader → ReadResult × Bool × SizedReader
unfolding add64 ◌-ℤ◌
advance has_access now (n, fine) s =
    let s' : SizedReader = record s {
      position = add64 s.position (pos n);
      source_at = add64 s.source_at (pos n);
    } in
    if ltb 0 n && (has_access && leb_ℤ (pos 2_000_000_000) (now -ℤ s.last_access))
    then (read_bytes n fine, true, record s' { last_access = now })
    else (read_bytes n fine, false, s')

-- `target` of `Seek`, for the three kinds of `whence`.
unfoldable pub target_of : ℤ → ℕ → SizedReader → Option ℤ
unfolding add64
target_of off zero s = some off
target_of off (suc zero) s = some (add64 s.position off)
target_of off (suc (suc zero)) s = some (add64 s.size off)
target_of off (suc (suc (suc w))) s = none

-- `if target > s.size { target = s.size }`.
unfoldable pub aim_of : ℤ → SizedReader → ℤ
aim_of target s = if ltb_ℤ s.size target then s.size else target

module _ (source_read : ℤ → ℕ → ℕ × Bool) (source_seek : ℤ → Bool) where
  -- `Read` into a buffer of length `len`.
  unfoldable pub read : Bool → ℤ → ℕ → SizedReader → ReadResult × Bool × SizedReader
  unfolding clip advance sub64
  read has_access now len s =
      if leb_ℤ s.size s.position
      then (end_of_file, false, s)
      else advance has_access now (source_read s.source_at (clip len (sub64 s.size s.position))) s

  -- The end of `Seek`, once the target is known.
  unfoldable pub seek_to : ℤ → SizedReader → SeekResult × SizedReader
  unfolding aim_of
  seek_to target s =
      let aim = aim_of target s in
      if ltb_ℤ target (pos 0)
      then (negative_seek, s)
      else if leb_ℤ aim s.position && leb_ℤ s.position aim
      then (sought s.position, s)
      else if source_seek aim
      then (sought aim, record s { position = aim; source_at = aim })
      else (source_failed, s)

  -- `Seek`.
  unfoldable pub seek : ℤ → ℕ → SizedReader → SeekResult × SizedReader
  unfolding target_of seek_to
  seek off whence s = elim (target_of off whence s) [
    | none ↦ (bad_whence, s)
    | some target ↦ seek_to target s
  ]

  -- One call on the reader.
  pub data Step : SizedReader → SizedReader → Type 0 where
    reads :
        (has_access : Bool) (now : ℤ) (len : ℕ) {s : SizedReader}
        → Step s (read has_access now len s).2
    seeks : (off : ℤ) (whence : ℕ) {s : SizedReader} → Step s (seek off whence s).1
