-- ===== src/Prelude/Lines.antt =====
-- Texts without a given byte, and what the operations on texts keep of them.
use bitlab.Prelude.{
  ℕ, zero, suc, ◌≡◌, refl, ap, ◌==◌, Bool, true, false, List, [], ◌∷◌, ◌++◌, some, inl, inr, Bytes,
  take, drop, All, Bool-cases, length, arith,
}
use mathlib.Core.List.{reverse, reverse_aux}
use bitlab.Prelude.Trim.{trim_space, trim_left, trim_back, is_space_1, is_space_2, is_space_3}
use bitlab.Prelude.Search.{split_at, onto_first, index_where}

-- The byte does not occur.
abbrev pub Lacks : ℕ → Bytes → Type 0
Lacks c s = All (λ b. (b == c) ≡ false) s

module _ (P : ℕ → Type 0) where
  pub All-take : (n : ℕ) (s : Bytes) → All P s → All P (take n s)
  All-take zero s h = tt
  All-take (suc n) [] h = tt
  All-take (suc n) (b ∷ s) h = (h.0, All-take n s h.1)

  pub All-drop : (n : ℕ) (s : Bytes) → All P s → All P (drop n s)
  All-drop zero s h = h
  All-drop (suc n) [] h = tt
  All-drop (suc n) (b ∷ s) h = All-drop n s h.1

  All-trim_left : (f : ℕ) (s : Bytes) → All P s → All P (trim_left f s)
  unfolding trim_left
  All-trim_left zero s h = h
  All-trim_left (suc f) [] h = tt
  All-trim_left (suc f) (a ∷ []) h = elim (Bool-cases (is_space_1 a)) [
    | inl one ↦ rw one tt
    | inr e ↦ rw e h
  ]
  All-trim_left (suc f) (a ∷ b ∷ []) h = elim (Bool-cases (is_space_1 a)) [
    | inl one ↦ rw one (All-trim_left f (b ∷ []) h.1)
    | inr e ↦ elim (Bool-cases (is_space_2 a b)) [ inl two ↦ rw (e, two) tt | inr d ↦ rw (e, d) h ]
  ]
  All-trim_left (suc f) (a ∷ b ∷ c ∷ s) h = elim (Bool-cases (is_space_1 a)) [
    | inl one ↦ rw one (All-trim_left f (b ∷ c ∷ s) h.1)
    | inr e ↦ elim (Bool-cases (is_space_2 a b)) [
      | inl two ↦ rw (e, two) (All-trim_left f (c ∷ s) h.1.1)
      | inr d ↦ elim (Bool-cases (is_space_3 a b c)) [
        | inl three ↦ rw (e, d, three) (All-trim_left f s h.1.1.1)
        | inr g ↦ rw (e, d, g) h
      ]
    ]
  ]

  All-trim_back : (f : ℕ) (s : Bytes) → All P s → All P (trim_back f s)
  unfolding trim_back
  All-trim_back zero s h = h
  All-trim_back (suc f) [] h = tt
  All-trim_back (suc f) (a ∷ []) h = elim (Bool-cases (is_space_1 a)) [
    | inl one ↦ rw one tt
    | inr e ↦ rw e h
  ]
  All-trim_back (suc f) (a ∷ b ∷ []) h = elim (Bool-cases (is_space_1 a)) [
    | inl one ↦ rw one (All-trim_back f (b ∷ []) h.1)
    | inr e ↦ elim (Bool-cases (is_space_2 b a)) [ inl two ↦ rw (e, two) tt | inr d ↦ rw (e, d) h ]
  ]
  All-trim_back (suc f) (a ∷ b ∷ c ∷ s) h = elim (Bool-cases (is_space_1 a)) [
    | inl one ↦ rw one (All-trim_back f (b ∷ c ∷ s) h.1)
    | inr e ↦ elim (Bool-cases (is_space_2 b a)) [
      | inl two ↦ rw (e, two) (All-trim_back f (c ∷ s) h.1.1)
      | inr d ↦ elim (Bool-cases (is_space_3 c b a)) [
        | inl three ↦ rw (e, d, three) (All-trim_back f s h.1.1.1)
        | inr g ↦ rw (e, d, g) h
      ]
    ]
  ]

  All-reverse_aux : (s acc : Bytes) → All P s → All P acc → All P (reverse_aux s acc)
  All-reverse_aux [] acc h k = k
  All-reverse_aux (b ∷ s) acc h k = All-reverse_aux s (b ∷ acc) h.1 (h.0, k)

  pub All-reverse : (s : Bytes) → All P s → All P (reverse s)
  All-reverse s h = All-reverse_aux s [] h tt

  pub All-trim_space : (s : Bytes) → All P s → All P (trim_space s)
  unfolding trim_space
  All-trim_space s h =
      let front = trim_left (length s) s in
      All-reverse (trim_back (length front) (reverse front)) (
        All-trim_back (length front) (reverse front)
          (All-reverse front (All-trim_left (length s) s h)))

  All-onto_first :
      (b : ℕ) (parts : List Bytes) → P b → All (All P) parts → All (All P) (onto_first b parts)
  All-onto_first b [] p h = ((p, tt), tt)
  All-onto_first b (part ∷ parts) p h = ((p, h.0), h.1)

  pub All-split_at : (sep : ℕ) (s : Bytes) → All P s → All (All P) (split_at sep s)
  unfolding split_at
  All-split_at sep [] h = (tt, tt)
  All-split_at sep (b ∷ s) h = elim (Bool-cases (b == sep)) [
    | inl e ↦ rw e (tt, All-split_at sep s h.1)
    | inr e ↦ rw e (All-onto_first b (split_at sep s) h.0 (All-split_at sep s h.1))
  ]

-- No part of a split has the separator.
pub split_at-Lacks : (sep : ℕ) (s : Bytes) → All (Lacks sep) (split_at sep s)
unfolding split_at
split_at-Lacks sep [] = (tt, tt)
split_at-Lacks sep (b ∷ s) = elim (Bool-cases (b == sep)) [
  | inl e ↦ rw e (tt, split_at-Lacks sep s)
  | inr e ↦ rw e (All-onto_first _ b (split_at sep s) e (split_at-Lacks sep s))
]

-- A text up to its first separator.
pub split_at-append :
    (sep : ℕ) (s rest : Bytes)
    → Lacks sep s
    → split_at sep (s ++ sep ∷ rest) ≡ s ∷ split_at sep rest
unfolding split_at
split_at-append sep [] rest h = ground arith
split_at-append sep (b ∷ s) rest h = rw (h.0, split_at-append sep s rest h.1) refl

pub index_where-append :
    (p : ℕ → Bool) (s rest : Bytes) (c : ℕ)
    → All (λ b. p b ≡ false) s
    → p c ≡ true
    → index_where p (s ++ c ∷ rest) ≡ some (length s)
unfolding index_where
index_where-append p [] rest c h e = rw e refl
index_where-append p (b ∷ s) rest c h e = rw (h.0, index_where-append p s rest c h.1 e) refl

pub take-append : (s rest : Bytes) → take (length s) (s ++ rest) ≡ s
take-append [] rest = refl
take-append (b ∷ s) rest = ap (◌∷◌ b) (take-append s rest)

pub drop-append : (s rest : Bytes) (c : ℕ) → drop (suc (length s)) (s ++ c ∷ rest) ≡ rest
drop-append [] rest c = refl
drop-append (b ∷ s) rest c = drop-append s rest c
