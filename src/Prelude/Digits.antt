-- ===== src/Prelude/Digits.antt =====
-- Decimal text: what is printed is read back, and text without spaces is its own trim.
use bitlab.Prelude.{
  ℕ, zero, suc, ◌+◌, ◌-◌, ◌*◌, ◌/◌, ◌%◌, ◌^◌, ◌≡◌, ◌≤◌, ◌<◌, refl, sym, ap, ◌∙◌, ◌==◌, true, false,
  ◌&&◌, [], ◌∷◌, ◌++◌, none, some, inl, inr, Bytes, if◌then◌else◌, leb, ltb, length, All,
  Bool-cases, some_inj, arith,
}
use mathlib.Core.Path.{subst}
use mathlib.Core.List.{reverse, reverse-cons, reverse-reverse}
use mathlib.Core.Option.{none-ne-some}
use bitlab.Prelude.Int.{pos}
use bitlab.Prelude.Trim.{trim_space, trim_left, trim_back}
use bitlab.Prelude.Lines.{All-reverse}
use bitlab.Prelude.Decimal.{is_digit, digits_value, positive, parse_int, digits_back, show_nat}

abbrev pub IsDigit : ℕ → Type 0
IsDigit b = leb 48 b && leb b 57 ≡ true

-- An ASCII byte that is no white space.
abbrev pub IsPlain : ℕ → Type 0
IsPlain b = leb 33 b && leb b 127 ≡ true

digits_back-IsDigit : (f n : ℕ) → All IsDigit (digits_back f n)
unfolding digits_back
digits_back-IsDigit zero n = tt
digits_back-IsDigit (suc f) n = elim (Bool-cases (ltb n 10)) [
  | inl e ↦ rw e (ground arith, tt)
  | inr e ↦ rw e (ground arith, digits_back-IsDigit f (n / 10))
]

pub show_nat-IsDigit : (n : ℕ) → All IsDigit (show_nat n)
unfolding show_nat
show_nat-IsDigit n = All-reverse IsDigit (digits_back (suc n) n) (digits_back-IsDigit (suc n) n)

-- One more digit at the end.
digits_value-append :
    (acc m d : ℕ) (s : Bytes)
    → digits_value acc s ≡ some m
    → is_digit d ≡ true
    → digits_value acc (s ++ d ∷ []) ≡ some (m * 10 + (d - 48))
unfolding digits_value
digits_value-append acc m d [] h digit = rw digit (ap (λ z. some (z * 10 + (d - 48))) (some_inj h))
digits_value-append acc m d (b ∷ s) h digit = elim (Bool-cases (is_digit b)) [
  | inl e ↦ rw e (
      digits_value-append (acc * 10 + (b - 48)) m d s
        (subst (λ t. (if t then digits_value (acc * 10 + (b - 48)) s else none) ≡ some m) e h)
        digit)
  | inr e ↦ absurd (
      none-ne-some m
        (subst (λ t. (if t then digits_value (acc * 10 + (b - 48)) s else none) ≡ some m) e h))
]

digits_value-back : (f n : ℕ) → n ≤ f → digits_value 0 (reverse (digits_back (suc f) n)) ≡ some n
unfolding digits_back digits_value is_digit
digits_value-back zero n le = subst back (zero_of n le) refl
  where
    zero_of : (n : ℕ) → n ≤ 0 → 0 ≡ n
    zero_of n le = omega arith

    back : ℕ → Type 0
    back k = digits_value 0 (reverse (digits_back 1 k)) ≡ some k
digits_value-back (suc f) n le = elim (Bool-cases (ltb n 10)) [
  | inl e ↦ rw (e, units_digit n) (ap some (small n e))
  | inr e ↦
      let d = 48 + n % 10 in
      let more = digits_back (suc f) (n / 10) in
      rw e (
        ap (digits_value 0) (reverse-cons d more)
        ∙ digits_value-append 0 (n / 10) d (reverse more)
            (digits_value-back f (n / 10) (fewer n e le)) (units_digit n)
        ∙ ap some (omega arith))
]
  where
    units_digit : (n : ℕ) → is_digit (48 + n % 10) ≡ true
    units_digit n = ground arith

    small : (n : ℕ) → ltb n 10 ≡ true → 0 + (48 + n % 10 - 48) ≡ n
    small n e = ground arith

    fewer : (n : ℕ) → ltb n 10 ≡ false → n ≤ suc f → n / 10 ≤ f
    fewer n e le = ground arith

parse_int-digits :
    (b n : ℕ) (s : Bytes)
    → IsDigit b
    → digits_value 0 (b ∷ s) ≡ some n
    → n < 2 ^ 63
    → parse_int (b ∷ s) ≡ some (pos n)
unfolding parse_int positive
parse_int-digits b n s digit value fits =
    rw (no_sign b digit 45 (omega arith), no_sign b digit 43 (omega arith), value, positive)
      (rw (below n fits) refl)
  where
    no_sign : (b : ℕ) → IsDigit b → (c : ℕ) → c < 48 → (b == c) ≡ false
    no_sign b h c k = ground arith

    below : (n : ℕ) → n < 2 ^ 63 → ltb n (2 ^ 63) ≡ true
    below n h = ground arith

-- A text with a last byte has a first one.
first_of : (s : Bytes) (d : ℕ) → (b : ℕ) × ((t : Bytes) × (s ++ d ∷ [] ≡ b ∷ t))
first_of [] d = (d, ([], refl))
first_of (b ∷ s) d = (b, (s ++ d ∷ [], refl))

pub first_digit : (n : ℕ) → (b : ℕ) × ((s : Bytes) × (show_nat n ≡ b ∷ s))
unfolding show_nat digits_back
first_digit n =
    let more = if ltb n 10 then [] else digits_back n (n / 10) in
    let (b, (s, e)) = first_of (reverse more) (48 + n % 10) in
    (b, (s, reverse-cons (48 + n % 10) more ∙ e))

pub parse_int-show_nat : (n : ℕ) → n < 2 ^ 63 → parse_int (show_nat n) ≡ some (pos n)
parse_int-show_nat n fits =
    let (b, (s, e)) = first_digit n in
    ap parse_int e
    ∙ parse_int-digits b n s (subst (All IsDigit) e (show_nat-IsDigit n)).0
        (ap (digits_value 0) (sym e) ∙ value) fits
  where
    value : digits_value 0 (show_nat n) ≡ some n
    value = unfold show_nat in digits_value-back n n (omega arith)

trim_left-plain : (f : ℕ) (b : ℕ) (s : Bytes) → IsPlain b → trim_left f (b ∷ s) ≡ b ∷ s
unfolding trim_left
trim_left-plain zero b s h = refl
trim_left-plain (suc f) b [] h = ground arith
trim_left-plain (suc f) b (c ∷ []) h = ground arith
trim_left-plain (suc f) b (c ∷ d ∷ s) h = ground arith

trim_back-plain : (f : ℕ) (b : ℕ) (s : Bytes) → All IsPlain (b ∷ s) → trim_back f (b ∷ s) ≡ b ∷ s
unfolding trim_back
trim_back-plain zero b s h = refl
trim_back-plain (suc f) b [] h = ground arith
trim_back-plain (suc f) b (c ∷ []) h = ground arith
trim_back-plain (suc f) b (c ∷ d ∷ s) h = ground arith

trim_back_same : (f : ℕ) (s : Bytes) → All IsPlain s → trim_back f s ≡ s
unfolding trim_back
trim_back_same zero [] h = refl
trim_back_same (suc f) [] h = refl
trim_back_same f (b ∷ s) h = trim_back-plain f b s h

pub trim_space-plain : (s : Bytes) → All IsPlain s → trim_space s ≡ s
unfolding trim_space
trim_space-plain [] h = refl
trim_space-plain (b ∷ s) h = rw (trim_left-plain (length (b ∷ s)) b s h.0) (
    ap reverse (trim_back_same (length (b ∷ s)) (reverse (b ∷ s)) (All-reverse IsPlain (b ∷ s) h))
    ∙ reverse-reverse (b ∷ s))
