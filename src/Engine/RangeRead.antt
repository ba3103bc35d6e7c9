-- ===== src/Engine/RangeRead.antt =====
-- engine.go: what `rangeStart` reads of the headers that players send.
use bitlab.Prelude.{
  ℕ, ◌^◌, ◌≡◌, ◌<◌, refl, sym, ap, ◌∙◌, ◌==◌, false, [], ◌∷◌, ◌++◌, some, inl, inr, Bytes, bytes,
  leb, length, All, Option-cases, arith,
}
use mathlib.Core.Path.{subst}
use bitlab.Prelude.Int.{pos}
use bitlab.Prelude.Members.{All-append, All-mono}
use bitlab.Prelude.Search.{index_where, trim_prefix}
use bitlab.Prelude.Lines.{index_where-append, take-append}
use bitlab.Prelude.Decimal.{show_nat}
use bitlab.Prelude.Digits.{
  IsDigit, IsPlain, show_nat-IsDigit, first_digit, parse_int-show_nat, trim_space-plain,
}
use bitlab.Engine.RangeHeader.{cut_comma, start_before, range_start}

-- The header of a request from a byte on; the rest has the last byte, and further ranges.
abbrev pub range_header : ℕ → Bytes → Bytes
range_header n rest = bytes "bytes=" ++ (show_nat n ++ 45 ∷ rest)

IsDigit-IsPlain : (s : Bytes) → All IsDigit s → All IsPlain s
IsDigit-IsPlain s h = All-mono IsDigit IsPlain s (λ b d. ground arith) h

cut_comma-cons : (b : ℕ) (s : Bytes) → (b == 44) ≡ false → cut_comma (b ∷ s) ≡ b ∷ cut_comma s
unfolding cut_comma index_where
cut_comma-cons b s e = elim (Option-cases (index_where (λ b. b == 44) s)) [
  | inl whole ↦ rw (e, whole, cut_comma) refl
  | inr (i, at) ↦ rw (e, at, cut_comma) refl
]

cut_comma-append :
    (s rest : Bytes)
    → All (λ b. (b == 44) ≡ false) s
    → cut_comma (s ++ 45 ∷ rest) ≡ s ++ 45 ∷ cut_comma rest
cut_comma-append [] rest h = cut_comma-cons 45 rest refl
cut_comma-append (b ∷ s) rest h =
    cut_comma-cons b (s ++ 45 ∷ rest) h.0 ∙ ap (◌∷◌ b) (cut_comma-append s rest h.1)

start_before-dash :
    (n : ℕ) (rest : Bytes)
    → n < 2 ^ 63
    → start_before (show_nat n ++ 45 ∷ rest) (index_where (λ b. b == 45) (show_nat n ++ 45 ∷ rest))
      ≡ some (pos n)
unfolding start_before
start_before-dash n rest fits =
    let digits = show_nat-IsDigit n in
    rw
      (
        index_where-append (λ b. b == 45) (show_nat n) rest 45
            (All-mono IsDigit (λ b. (b == 45) ≡ false) (show_nat n) (λ b d. ground arith) digits)
            refl,
        take-append (show_nat n) (45 ∷ rest),
        trim_space-plain (show_nat n) (IsDigit-IsPlain (show_nat n) digits),
        some_length,
      )
      (parse_int-show_nat n fits)
  where
    some_length : leb (length (show_nat n)) 0 ≡ false
    some_length =
        let (b, (s, e)) = first_digit n in
        subst (λ (t : Bytes). leb (length t) 0 ≡ false) (sym e) (ground arith)

-- For a start below 2 ^ 63, rangeStart gives back the first byte that the header names, whatever
-- follows the dash, where the bytes that follow lie between 33 and 127.
pub range_start-range_header :
    (n : ℕ) (rest : Bytes)
    → n < 2 ^ 63
    → All IsPlain rest
    → range_start (range_header n rest) ≡ some (pos n)
unfolding range_start trim_prefix
range_start-range_header n rest fits plain =
    let spec = show_nat n ++ 45 ∷ rest in
    let digits = show_nat-IsDigit n in
    let plain_spec =
      All-append IsPlain (show_nat n) (45 ∷ rest) (IsDigit-IsPlain (show_nat n) digits)
        (refl, plain) in
    rw
      (
        trim_space-plain (range_header n rest) (
            All-append IsPlain (bytes "bytes=") spec
              (refl, (refl, (refl, (refl, (refl, (refl, tt)))))) plain_spec),
        trim_space-plain spec plain_spec,
        cut_comma-append (show_nat n) rest
            (All-mono IsDigit (λ b. (b == 44) ≡ false) (show_nat n) (λ b d. ground arith) digits),
      )
      (start_before-dash n (cut_comma rest) fits)
