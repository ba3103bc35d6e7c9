-- ===== src/Engine/ReaderTests.antt =====
-- `sizedReader` of engine.go on a file of 100 bytes.
use bitlab.Prelude.{ℕ, ◌≡◌, refl, Bool, true, false, arith}
use bitlab.Prelude.Int.{ℤ, pos, add64, sub64}
use bitlab.Engine.Reader.{
  SizedReader, read, seek, clip, advance, seek_to, target_of, aim_of, read_bytes, sought, reads,
}
use bitlab.Engine.Range.{InFile, IsReader, Step-InFile}

-- A reader below that fills every buffer, and seeks everywhere.
fill : ℤ → ℕ → ℕ × Bool
fill at len = (len, true)

anywhere : ℤ → Bool
anywhere at = true

fill-IsReader : IsReader fill
unfolding fill
fill-IsReader at len = omega arith

abbrev near_end : SizedReader
near_end = record { size = pos 100; position = pos 96; last_access = pos 0; source_at = pos 96 }

near_end-InFile : InFile near_end
near_end-InFile = record {
  fits = omega arith;
  from_start = omega arith;
  to_end = omega arith;
  together = refl;
}

-- The last four bytes are read into a buffer of ten.
last_bytes : (read fill anywhere false (pos 0) 10 near_end).0 ≡ read_bytes 4 true
unfolding read clip advance fill sub64 add64
last_bytes = refl

-- A seek past the end stops at the end.
seek_past : (seek fill anywhere (pos 500) 0 near_end).0 ≡ sought (pos 100)
unfolding seek seek_to target_of aim_of anywhere
seek_past = refl

Step-InFile_example : InFile (read fill anywhere false (pos 0) 10 near_end).2
Step-InFile_example =
    Step-InFile fill anywhere fill-IsReader (reads false (pos 0) 10) near_end-InFile
