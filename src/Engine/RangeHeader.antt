-- ===== src/Engine/RangeHeader.antt =====
-- engine.go: `rangeStart` and `sniffContainer`.
use bitlab.Prelude.{
  ℕ, ◌==◌, Bool, ◌&&◌, ◌||◌, not, [], Option, none, some, Bytes, bytes, bytes_eq, has_prefix,
  if◌then◌else◌, leb, ltb, length, take, drop, get_or,
}
use bitlab.Prelude.Int.{ℤ}
use bitlab.Prelude.Trim.{trim_space}
use bitlab.Prelude.Search.{index_where, trim_prefix}
use bitlab.Prelude.Decimal.{parse_int}

-- `spec[:i]` at the first comma.
unfoldable pub cut_comma : Bytes → Bytes
unfolding index_where
cut_comma spec = elim (index_where (λ b. b == 44) spec) [ none ↦ spec | some i ↦ take i spec ]

-- The last part of `rangeStart`, from the place of the dash.
unfoldable pub start_before : Bytes → Option ℕ → Option ℤ
unfolding parse_int trim_space
start_before spec none = none
start_before spec (some dash) = if leb dash 0 then none else parse_int (trim_space (take dash spec))

-- `rangeStart`; `none` where its second result is false.
unfoldable pub range_start : Bytes → Option ℤ
unfolding cut_comma start_before trim_space trim_prefix has_prefix index_where
range_start header =
    let h = trim_space header in
    let spec = cut_comma (trim_space (trim_prefix h (bytes "bytes="))) in
    if not (has_prefix h (bytes "bytes="))
    then none
    else start_before spec (index_where (λ b. b == 45) spec)

-- `min`.
unfoldable pub min_int : ℕ → ℕ → ℕ
min_int a b = if ltb a b then a else b

-- `b[i] == v`, for a position below the length.
abbrev pub byte_is : Bytes → ℕ → ℕ → Bool
byte_is b i v = get_or b i 0 == v

-- `string(b[from:to])`.
abbrev pub slice : ℕ → ℕ → Bytes → Bytes
slice from to b = drop from (take to b)

-- A file extension and a media type.
abbrev pub Container : Type 0
Container = Bytes × Bytes

-- `sniffContainer`.
unfoldable pub sniff_container : Bytes → Container
unfolding bytes_eq has_prefix trim_space min_int
sniff_container b =
    let n = length b in
    if leb 8 n && bytes_eq (slice 4 8 b) (bytes "ftyp")
    then (if has_prefix (trim_space (slice 8 (min_int 12 n) b)) (bytes "qt")
        then (bytes ".mov", bytes "video/quicktime")
        else (bytes ".mp4", bytes "video/mp4"))
    else (if leb 4 n && (byte_is b 0 26 && (byte_is b 1 69 && (byte_is b 2 223 && byte_is b 3 163)))
        then (bytes ".mkv", bytes "video/x-matroska")
        else (if leb 12 n
              && (bytes_eq (slice 0 4 b) (bytes "RIFF") && bytes_eq (slice 8 12 b) (bytes "AVI "))
            then (bytes ".avi", bytes "video/x-msvideo")
            else (if leb 4 n && bytes_eq (slice 0 4 b) (bytes "OggS")
                then (bytes ".ogv", bytes "video/ogg")
                else (if leb 4 n && bytes_eq (slice 0 3 b) (bytes "FLV")
                    then (bytes ".flv", bytes "video/x-flv")
                    else (if leb 1 n && byte_is b 0 71
                        then (bytes ".ts", bytes "video/mp2t")
                        else (if leb 4 n
                              && (byte_is b 0 0
                                  && (byte_is b 1 0
                                      && (byte_is b 2 1 && (byte_is b 3 186 || byte_is b 3 179))))
                            then (bytes ".mpg", bytes "video/mpeg")
                            else ([], [])))))))
