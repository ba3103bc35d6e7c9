-- ===== src/Prelude/Trim.antt =====
-- `strings.TrimSpace` : the white space of Unicode, in UTF-8, at both ends.
use bitlab.Prelude.{
  ℕ, zero, suc, ◌==◌, Bool, ◌&&◌, ◌||◌, [], ◌∷◌, Bytes, if◌then◌else◌, leb, length,
}
use mathlib.Core.List.{reverse}

abbrev pub is_space_1 : ℕ → Bool
is_space_1 a = (leb 9 a && leb a 13) || a == 32

-- U+0085 and U+00A0.
abbrev pub is_space_2 : ℕ → ℕ → Bool
is_space_2 a b = a == 194 && (b == 133 || b == 160)

-- U+1680, U+2000 to U+200A, U+2028, U+2029, U+202F, U+205F and U+3000.
abbrev pub is_space_3 : ℕ → ℕ → ℕ → Bool
is_space_3 a b c =
    (a == 225 && (b == 154 && c == 128))
    || ((a == 226
          && ((b == 128 && ((leb 128 c && leb c 138) || (c == 168 || (c == 169 || c == 175))))
              || (b == 129 && c == 159)))
        || (a == 227 && (b == 128 && c == 128)))

-- The spaces at the start; each round takes a byte or more, so the length is enough fuel.
unfoldable pub trim_left : ℕ → Bytes → Bytes
trim_left zero s = s
trim_left (suc f) [] = []
trim_left (suc f) (a ∷ []) = if is_space_1 a then [] else a ∷ []
trim_left (suc f) (a ∷ b ∷ []) =
    if is_space_1 a then trim_left f (b ∷ []) else (if is_space_2 a b then [] else a ∷ b ∷ [])
trim_left (suc f) (a ∷ b ∷ c ∷ s) =
    let one = trim_left f (b ∷ c ∷ s) in
    let two = trim_left f (c ∷ s) in
    let three = trim_left f s in
    if is_space_1 a
    then one
    else (if is_space_2 a b then two else (if is_space_3 a b c then three else a ∷ b ∷ c ∷ s))

-- The spaces at the end of a text that is given backwards.
unfoldable pub trim_back : ℕ → Bytes → Bytes
trim_back zero s = s
trim_back (suc f) [] = []
trim_back (suc f) (a ∷ []) = if is_space_1 a then [] else a ∷ []
trim_back (suc f) (a ∷ b ∷ []) =
    if is_space_1 a then trim_back f (b ∷ []) else (if is_space_2 b a then [] else a ∷ b ∷ [])
trim_back (suc f) (a ∷ b ∷ c ∷ s) =
    let one = trim_back f (b ∷ c ∷ s) in
    let two = trim_back f (c ∷ s) in
    let three = trim_back f s in
    if is_space_1 a
    then one
    else (if is_space_2 b a then two else (if is_space_3 c b a then three else a ∷ b ∷ c ∷ s))

-- `strings.TrimSpace`.
unfoldable pub trim_space : Bytes → Bytes
unfolding trim_left trim_back
trim_space s =
    let front = trim_left (length s) s in reverse (trim_back (length front) (reverse front))
