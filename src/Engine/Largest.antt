-- ===== src/Engine/Largest.antt =====
-- engine.go: what the loops of `chooseFile` choose.
use bitlab.Prelude.{
  ℕ, zero, suc, ◌≡◌, ◌<◌, refl, sym, ap, ◌∙◌, Bool, true, false, List, [], ◌∷◌, ◌++◌, Option, none,
  some, inl, inr, if◌then◌else◌, length, take, get_elem?, All, Bool-cases, length-append, arith,
}
use mathlib.Core.Path.{subst}
use bitlab.Prelude.Int.{ℤ, ltb_ℤ, ◌≤ℤ◌, ◌<ℤ◌}
use bitlab.Prelude.Members.{All-append, All-mono}
use bitlab.Engine.Choose.{File, larger, largest}

-- The file at a position passes the test and has a size; every other that passes is no larger, and
-- smaller where it comes before.
pub record IsLargest (p : File → Bool) (fs : List File) (i : ℕ) (s : ℤ) : Type 0 where
  pub best : File
  pub there : get_elem? fs i ≡ some best
  pub passes : p best ≡ true
  pub sized : best.size ≡ s
  pub no_larger : All (λ g. p g ≡ true → g.size ≤ℤ s) fs
  pub first : All (λ g. p g ≡ true → g.size <ℤ s) (take i fs)

-- What the loop knows of the files that it has seen.
abbrev IsBestOf : (File → Bool) → List File → Option (ℕ × ℤ) → Type 0
IsBestOf p seen none = All (λ g. p g ≡ false) seen
IsBestOf p seen (some (i, s)) = IsLargest p seen i s

pub get_elem?-append {ℓ} :
    {A : Type ℓ} (xs ys : List A) (i : ℕ) (a : A)
    → get_elem? xs i ≡ some a
    → get_elem? (xs ++ ys) i ≡ some a
get_elem?-append [] ys i a h = cc
get_elem?-append (x ∷ xs) ys zero a h = h
get_elem?-append (x ∷ xs) ys (suc i) a h = get_elem?-append xs ys i a h

pub get_elem?-end {ℓ} :
    {A : Type ℓ} (xs ys : List A) (a : A) → get_elem? (xs ++ a ∷ ys) (length xs) ≡ some a
get_elem?-end [] ys a = refl
get_elem?-end (x ∷ xs) ys a = get_elem?-end xs ys a

take-end {ℓ} : {A : Type ℓ} (xs ys : List A) → take (length xs) (xs ++ ys) ≡ xs
take-end [] ys = refl
take-end (x ∷ xs) ys = ap (◌∷◌ x) (take-end xs ys)

take-inside {ℓ} :
    {A : Type ℓ} (xs ys : List A) (i : ℕ) (a : A)
    → get_elem? xs i ≡ some a
    → take i (xs ++ ys) ≡ take i xs
take-inside [] ys i a h = cc
take-inside (x ∷ xs) ys zero a h = refl
take-inside (x ∷ xs) ys (suc i) a h = ap (◌∷◌ x) (take-inside xs ys i a h)

pub get_elem?-lt {ℓ} :
    {A : Type ℓ} (xs : List A) (i : ℕ) (a : A) → get_elem? xs i ≡ some a → i < length xs
get_elem?-lt [] i a h = cc
get_elem?-lt (x ∷ xs) zero a h = omega arith
get_elem?-lt (x ∷ xs) (suc i) a h = omega (arith, get_elem?-lt xs i a h)

pub append_one {ℓ} : {A : Type ℓ} (xs ys : List A) (a : A) → (xs ++ a ∷ []) ++ ys ≡ xs ++ a ∷ ys
append_one [] ys a = refl
append_one (x ∷ xs) ys a = ap (◌∷◌ x) (append_one xs ys a)

not_both : {b : Bool} → b ≡ false → b ≡ true → ⊥
not_both {b} e d = cc

module _ (p : File → Bool) where
  -- The best stays, as the new file fails the test or is no larger.
  kept :
      (seen : List File) (f : File) (i : ℕ) (s : ℤ)
      → IsLargest p seen i s
      → (p f ≡ true → f.size ≤ℤ s)
      → IsLargest p (seen ++ f ∷ []) i s
  kept seen f i s h small = record {
    best = h.best;
    there = get_elem?-append seen (f ∷ []) i h.best h.there;
    passes = h.passes;
    sized = h.sized;
    no_larger = All-append (λ g. p g ≡ true → g.size ≤ℤ s) seen (f ∷ []) h.no_larger (small, tt);
    first =
        subst (All (λ g. p g ≡ true → g.size <ℤ s))
          (sym (take-inside seen (f ∷ []) i h.best h.there)) h.first;
  }

  -- The new file is the best, as it is larger than all before it.
  taken :
      (seen : List File) (f : File)
      → p f ≡ true
      → All (λ g. p g ≡ true → g.size <ℤ f.size) seen
      → IsLargest p (seen ++ f ∷ []) (length seen) f.size
  taken seen f pass h = record {
    best = f;
    there = get_elem?-end seen [] f;
    passes = pass;
    sized = refl;
    no_larger =
        All-append (λ g. p g ≡ true → g.size ≤ℤ f.size) seen (f ∷ [])
          (All-mono (λ g. p g ≡ true → g.size <ℤ f.size) (λ g. p g ≡ true → g.size ≤ℤ f.size) seen
            (λ g small pg. below g (small pg)) h)
          ((λ pf. omega arith), tt);
    first = subst (All (λ g. p g ≡ true → g.size <ℤ f.size)) (sym (take-end seen (f ∷ []))) h;
  }
    where
      below : (g : File) → g.size <ℤ f.size → g.size ≤ℤ f.size
      below g h = omega arith

  step :
      (seen : List File) (f : File) (best : Option (ℕ × ℤ))
      → IsBestOf p seen best
      → IsBestOf p (seen ++ f ∷ []) (if p f then larger (length seen) f best else best)
  unfolding larger
  step seen f none h = elim (Bool-cases (p f)) [
    | inl pass ↦ rw pass (
        taken seen f pass (
          All-mono (λ g. p g ≡ false) (λ g. p g ≡ true → g.size <ℤ f.size) seen
            (λ g fails pg. absurd (not_both fails pg)) h))
    | inr fails ↦ rw fails (All-append (λ g. p g ≡ false) seen (f ∷ []) h (fails, tt))
  ]
  step seen f (some (i, s)) h = elim (Bool-cases (p f)) [
    | inl pass ↦ elim (Bool-cases (ltb_ℤ s f.size)) [
      | inl more ↦
          rw (pass, more)
            (taken seen f pass (
              All-mono (λ g. p g ≡ true → g.size ≤ℤ s) (λ g. p g ≡ true → g.size <ℤ f.size) seen
                (λ g small pg. below g.size s f.size (small pg) more) h.no_larger))
      | inr less ↦ rw (pass, less) (kept seen f i s h (λ pf. at_most s f.size less))
    ]
    | inr fails ↦ rw fails (kept seen f i s h (λ pf. absurd (not_both fails pf)))
  ]
    where
      below : (a b c : ℤ) → a ≤ℤ b → ltb_ℤ b c ≡ true → a <ℤ c
      below a b c h k = ground arith

      at_most : (a b : ℤ) → ltb_ℤ a b ≡ false → b ≤ℤ a
      at_most a b h = ground arith

  loop :
      (seen fs : List File) (best : Option (ℕ × ℤ))
      → IsBestOf p seen best
      → IsBestOf p (seen ++ fs) (largest p (length seen) fs best)
  unfolding largest
  loop seen [] best h = subst (λ z. IsBestOf p z best) (append_nil seen) h
    where
      append_nil : (xs : List File) → xs ≡ xs ++ []
      append_nil [] = refl
      append_nil (x ∷ xs) = ap (◌∷◌ x) (append_nil xs)
  loop seen (f ∷ fs) best h =
      let best' = if p f then larger (length seen) f best else best in
      subst (λ z. IsBestOf p z (largest p (suc (length seen)) fs best')) (append_one seen fs f)
        (subst (λ n. IsBestOf p ((seen ++ f ∷ []) ++ fs) (largest p n fs best')) (count seen)
          (loop (seen ++ f ∷ []) fs best' (step seen f best h)))
    where
      count : (xs : List File) → length (xs ++ f ∷ []) ≡ suc (length xs)
      count xs = length-append xs (f ∷ []) ∙ omega arith

  pub nothing_passes : (fs : List File) → largest p 0 fs none ≡ none → All (λ g. p g ≡ false) fs
  nothing_passes fs e = subst (IsBestOf p fs) e (loop [] fs none tt)

  pub largest-IsLargest :
      (fs : List File) (i : ℕ) (s : ℤ) → largest p 0 fs none ≡ some (i, s) → IsLargest p fs i s
  largest-IsLargest fs i s e = subst (IsBestOf p fs) e (loop [] fs none tt)
