-- ===== src/Prelude/Pairs.antt =====
-- Lists whose members are related in pairs, the earlier to the later.
use bitlab.Prelude.{ℕ, zero, suc, Bool, List, [], ◌∷◌, inl, inr, keep_if, take, All, Bool-cases}
use mathlib.Core.List.{reverse, reverse_aux}
use bitlab.Prelude.Members.{All-keep_if, All-zip, All_lem}

abbrev pub Pairwise {ℓ κ} : {A : Type ℓ} → (A → A → Type κ) → List A → Type κ
Pairwise R [] = Unit
Pairwise R (x ∷ xs) = All (R x) xs × Pairwise R xs

pub All-firsts {ℓ κ} :
    {A : Type ℓ} (P : A → Type κ) (n : ℕ) (xs : List A) → All P xs → All P (take n xs)
All-firsts P zero xs h = tt
All-firsts P (suc n) [] h = tt
All-firsts P (suc n) (x ∷ xs) h = (h.0, All-firsts P n xs h.1)

module _ {ℓ κ} {A : Type ℓ} (R : A → A → Type κ) where
  pub Pairwise-keep_if : (p : A → Bool) (xs : List A) → Pairwise R xs → Pairwise R (keep_if p xs)
  Pairwise-keep_if p [] h = tt
  Pairwise-keep_if p (x ∷ xs) h = elim (Bool-cases (p x)) [
    | inl e ↦ rw e (All-keep_if (R x) p xs h.0, Pairwise-keep_if p xs h.1)
    | inr e ↦ rw e (Pairwise-keep_if p xs h.1)
  ]

  pub Pairwise-take : (n : ℕ) (xs : List A) → Pairwise R xs → Pairwise R (take n xs)
  Pairwise-take zero xs h = tt
  Pairwise-take (suc n) [] h = tt
  Pairwise-take (suc n) (x ∷ xs) h = (All-firsts (R x) n xs h.0, Pairwise-take n xs h.1)

  Pairwise-reverse_aux :
      (xs acc : List A)
      → Pairwise (λ a b. R b a) xs
      → Pairwise R acc
      → All (λ x. All (R x) acc) xs
      → Pairwise R (reverse_aux xs acc)
  Pairwise-reverse_aux [] acc h k across = k
  Pairwise-reverse_aux (x ∷ xs) acc h k across =
      Pairwise-reverse_aux xs (x ∷ acc) h.1 (across.0, k)
        (All-zip (λ y. R y x) (λ y. All (R y) acc) xs h.0 across.1)

  pub Pairwise-reverse : (xs : List A) → Pairwise (λ a b. R b a) xs → Pairwise R (reverse xs)
  Pairwise-reverse xs h = Pairwise-reverse_aux xs [] h tt (All_lem (λ x. Unit) xs (λ x. tt))

All-reverse_aux {ℓ κ} :
    {A : Type ℓ} (P : A → Type κ) (xs acc : List A)
    → All P xs
    → All P acc
    → All P (reverse_aux xs acc)
All-reverse_aux P [] acc h k = k
All-reverse_aux P (x ∷ xs) acc h k = All-reverse_aux P xs (x ∷ acc) h.1 (h.0, k)

pub All-backwards {ℓ κ} :
    {A : Type ℓ} (P : A → Type κ) (xs : List A) → All P xs → All P (reverse xs)
All-backwards P xs h = All-reverse_aux P xs [] h tt
