-- ===== src/Prelude/Search.antt =====
-- The searches of Go's `strings` on byte lists, and its lower case where the result is compared with
-- ASCII text: the two runes beyond ASCII whose lower case is an ASCII letter are folded, and every
-- other rune beyond ASCII stays beyond it.
use Prim.Native.Nat.{ℕ, suc, ◌+◌}
use mathlib.Core.Bool.{Bool, ◌&&◌, ◌||◌}
use mathlib.Core.List.{List, [], ◌∷◌}
use mathlib.Core.Option.{Option, none, some}
use bitlab.Prelude.Tests.{leb, ◌==◌, if◌then◌else◌}
use bitlab.Prelude.Lists.{length, drop}
use bitlab.Prelude.Text.{Bytes, has_prefix}

abbrev pub one_later : Option ℕ → Option ℕ
one_later none = none
one_later (some i) = some (suc i)

-- `strings.IndexByte` and `strings.IndexAny` for a test of bytes.
unfoldable pub index_where : (ℕ → Bool) → Bytes → Option ℕ
index_where p [] = none
index_where p (b ∷ s) = let later = one_later (index_where p s) in if p b then some 0 else later

-- `strings.Index(s, sub)`.
unfoldable pub index_of : Bytes → Bytes → Option ℕ
unfolding has_prefix
index_of sub [] = if has_prefix [] sub then some 0 else none
index_of sub (b ∷ s) =
    let later = one_later (index_of sub s) in if has_prefix (b ∷ s) sub then some 0 else later

-- `strings.Contains(s, sub)`.
unfoldable pub has_text : Bytes → Bytes → Bool
unfolding has_prefix
has_text [] sub = has_prefix [] sub
has_text (b ∷ s) sub = has_prefix (b ∷ s) sub || has_text s sub

-- Puts a byte before the first part.
abbrev pub onto_first : ℕ → List Bytes → List Bytes
onto_first b [] = (b ∷ []) ∷ []
onto_first b (part ∷ parts) = (b ∷ part) ∷ parts

-- `strings.Split` at a separator of one byte.
unfoldable pub split_at : ℕ → Bytes → List Bytes
split_at sep [] = [] ∷ []
split_at sep (b ∷ s) =
    let parts = split_at sep s in if b == sep then [] ∷ parts else onto_first b parts

-- `strings.TrimPrefix`.
unfoldable pub trim_prefix : Bytes → Bytes → Bytes
unfolding has_prefix
trim_prefix s p = if has_prefix s p then drop (length p) s else s

unfoldable pub lower_byte : ℕ → ℕ
lower_byte b = if leb 65 b && leb b 90 then b + 32 else b

-- `strings.ToLower`.
unfoldable pub to_lower : Bytes → Bytes
unfolding lower_byte
to_lower [] = []
to_lower (a ∷ []) = lower_byte a ∷ []
to_lower (a ∷ b ∷ []) = if a == 196 && b == 176 then 105 ∷ [] else lower_byte a ∷ lower_byte b ∷ []
to_lower (a ∷ b ∷ c ∷ s) =
    let kelvin = 107 ∷ to_lower s in
    let dotted = 105 ∷ to_lower (c ∷ s) in
    let plain = lower_byte a ∷ to_lower (b ∷ c ∷ s) in
    if a == 226 && (b == 132 && c == 170)
    then kelvin
    else (if a == 196 && b == 176 then dotted else plain)
