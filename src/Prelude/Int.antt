-- ===== src/Prelude/Int.antt =====
-- Signed integers over the native numbers, and Go's int64 arithmetic, which wraps around.
use bitlab.Prelude.Tests.{ltb, leb, if◌then◌else◌}
use Prim.Native.Nat.{ℕ, suc, ◌+◌, ◌-◌, ◌%◌, ◌^◌, ◌≤◌, ◌<◌}
use mathlib.Core.Path.{◌≡◌, ap, sym, ◌∙◌}
use mathlib.Core.Bool.{Bool, ◌&&◌}
use native.Mathlib.Omega.{arith}

-- `negsuc n` is -(n + 1).
pub data ℤ : Type 0 where
  pos : ℕ → ℤ
  negsuc : ℕ → ℤ

abbrev pub pos_part : ℤ → ℕ
pos_part (pos n) = n
pos_part (negsuc n) = 0

abbrev pub neg_part : ℤ → ℕ
neg_part (pos n) = 0
neg_part (negsuc n) = suc n

-- a - b, as an integer.
abbrev pub sub_ℕ : ℕ → ℕ → ℤ
sub_ℕ a b = if leb b a then pos (a - b) else negsuc (b - a - 1)

infixl 65 ◌+ℤ◌ ◌-ℤ◌
infix 50 ◌≤ℤ◌ ◌<ℤ◌
unfoldable pub ◌+ℤ◌ : ℤ → ℤ → ℤ
a +ℤ b = sub_ℕ (pos_part a + pos_part b) (neg_part a + neg_part b)

unfoldable pub ◌-ℤ◌ : ℤ → ℤ → ℤ
a -ℤ b = sub_ℕ (pos_part a + neg_part b) (neg_part a + pos_part b)

abbrev pub ◌≤ℤ◌ : ℤ → ℤ → Type 0
a ≤ℤ b = pos_part a + neg_part b ≤ pos_part b + neg_part a

abbrev pub ◌<ℤ◌ : ℤ → ℤ → Type 0
a <ℤ b = pos_part a + neg_part b < pos_part b + neg_part a

abbrev pub eqb_ℤ : ℤ → ℤ → Bool
eqb_ℤ a b =
    leb (pos_part a + neg_part b) (pos_part b + neg_part a)
    && leb (pos_part b + neg_part a) (pos_part a + neg_part b)

abbrev pub ltb_ℤ : ℤ → ℤ → Bool
ltb_ℤ a b = ltb (pos_part a + neg_part b) (pos_part b + neg_part a)

abbrev pub leb_ℤ : ℤ → ℤ → Bool
leb_ℤ a b = leb (pos_part a + neg_part b) (pos_part b + neg_part a)

pub +ℤ_parts :
    (a b : ℤ)
    → pos_part (a +ℤ b) + neg_part a + neg_part b ≡ neg_part (a +ℤ b) + pos_part a + pos_part b
unfolding ◌+ℤ◌
+ℤ_parts a b = ground arith

pub -ℤ_parts :
    (a b : ℤ)
    → pos_part (a -ℤ b) + neg_part a + pos_part b ≡ neg_part (a -ℤ b) + pos_part a + neg_part b
unfolding ◌-ℤ◌
-ℤ_parts a b = ground arith

pub eq_of_parts : (a b : ℤ) → pos_part a + neg_part b ≡ pos_part b + neg_part a → a ≡ b
eq_of_parts a b h = ground arith

pub ruleset int_laws = (arith, +ℤ_parts, -ℤ_parts, eq_of_parts)

-- The two's complement word of an integer, and the integer of a word.
abbrev word64 : ℤ → ℕ
word64 (pos n) = n % 2 ^ 64
word64 (negsuc n) = 2 ^ 64 - 1 - n % 2 ^ 64

abbrev signed64 : ℕ → ℤ
signed64 w = if ltb w (2 ^ 63) then pos w else negsuc (2 ^ 64 - 1 - w)

-- What an int64 holds after an operation whose exact result is the argument.
unfoldable pub wrap64 : ℤ → ℤ
wrap64 a = signed64 (word64 a)

-- The exact result fits.
abbrev pub InInt64 : ℤ → Type 0
InInt64 (pos n) = n < 2 ^ 63
InInt64 (negsuc n) = n < 2 ^ 63

pub wrap64_fits : (a : ℤ) → InInt64 a → wrap64 a ≡ a
unfolding wrap64
wrap64_fits (pos n) h = ground arith
wrap64_fits (negsuc n) h = ground arith

-- `+` and `-` on int64.
unfoldable pub add64 : ℤ → ℤ → ℤ
unfolding wrap64 ◌+ℤ◌
add64 a b = wrap64 (a +ℤ b)

unfoldable pub sub64 : ℤ → ℤ → ℤ
unfolding wrap64 ◌-ℤ◌
sub64 a b = wrap64 (a -ℤ b)

pub add64_exact : (a b : ℤ) → InInt64 (a +ℤ b) → add64 a b ≡ a +ℤ b
unfolding add64
add64_exact a b h = wrap64_fits (a +ℤ b) h

pub sub64_exact : (a b : ℤ) → InInt64 (a -ℤ b) → sub64 a b ≡ a -ℤ b
unfolding sub64
sub64_exact a b h = wrap64_fits (a -ℤ b) h

wrap64_word : (a : ℤ) → word64 (wrap64 a) ≡ word64 a
unfolding wrap64
wrap64_word (pos n) = ground arith
wrap64_word (negsuc n) = ground arith

-- The word of a sum depends on the words of its parts.
word64-add : (a b : ℤ) → word64 (a +ℤ b) ≡ (word64 a + word64 b) % 2 ^ 64
unfolding ◌+ℤ◌
word64-add (pos m) (pos n) = ground arith
word64-add (pos m) (negsuc n) = ground arith
word64-add (negsuc m) (pos n) = ground arith
word64-add (negsuc m) (negsuc n) = ground arith

word64-sub : (a b : ℤ) → word64 (a -ℤ b) ≡ (word64 a + (2 ^ 64 - word64 b)) % 2 ^ 64
unfolding ◌-ℤ◌
word64-sub (pos m) (pos n) = ground arith
word64-sub (pos m) (negsuc n) = ground arith
word64-sub (negsuc m) (pos n) = ground arith
word64-sub (negsuc m) (negsuc n) = ground arith

-- Wrapped sums and differences may be wrapped once, at the end.
pub wrap64-add : (a b : ℤ) → wrap64 (wrap64 a +ℤ b) ≡ wrap64 (a +ℤ b)
unfolding wrap64
wrap64-add a b = ap signed64 (
    word64-add (wrap64 a) b
    ∙ ap (λ (w : ℕ). (w + word64 b) % 2 ^ 64) (wrap64_word a)
    ∙ sym (word64-add a b))

pub wrap64-sub : (a b : ℤ) → wrap64 (wrap64 a -ℤ b) ≡ wrap64 (a -ℤ b)
unfolding wrap64
wrap64-sub a b = ap signed64 (
    word64-sub (wrap64 a) b
    ∙ ap (λ (w : ℕ). (w + (2 ^ 64 - word64 b)) % 2 ^ 64) (wrap64_word a)
    ∙ sym (word64-sub a b))

pub wrap64-sub_right : (a b : ℤ) → wrap64 (a -ℤ wrap64 b) ≡ wrap64 (a -ℤ b)
unfolding wrap64
wrap64-sub_right a b = ap signed64 (
    word64-sub a (wrap64 b)
    ∙ ap (λ (w : ℕ). (word64 a + (2 ^ 64 - w)) % 2 ^ 64) (wrap64_word b)
    ∙ sym (word64-sub a b))
