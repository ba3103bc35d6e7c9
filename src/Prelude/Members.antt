-- ===== src/Prelude/Members.antt =====
-- Facts about all members of a list, and membership under the list operations.
use mathlib.Core.Path.{◌≡◌, subst, sym}
use mathlib.Core.Logic.Or
use mathlib.Core.Bool.{Bool, true}
use mathlib.Core.List.{
  List, [], ◌∷◌, ◌++◌, map, Mem, Mem-prop, not-mem-nil, mem-cons, mem-cons_self, mem-cons_of_mem,
  Perm,
}
use mathlib.Core.List.Perm
use bitlab.Prelude.Tests.{Bool-cases}
use bitlab.Prelude.Lists.{All, keep_if}
use mathlib.Core.Logic.{inl, inr}
use mathlib.Core.Option.{Option, none, some}

module _ {ℓ κ} {A : Type ℓ} (P : A → Type κ) where
  pub All-append : (xs ys : List A) → All P xs → All P ys → All P (xs ++ ys)
  All-append [] ys hx hy = hy
  All-append (x ∷ xs) ys hx hy = (hx.0, All-append xs ys hx.1 hy)

  pub All-append_left : (xs ys : List A) → All P (xs ++ ys) → All P xs
  All-append_left [] ys h = tt
  All-append_left (x ∷ xs) ys h = (h.0, All-append_left xs ys h.1)

  pub All-append_right : (xs ys : List A) → All P (xs ++ ys) → All P ys
  All-append_right [] ys h = h
  All-append_right (x ∷ xs) ys h = All-append_right xs ys h.1

  pub All-of_mem : (xs : List A) → ((x : A) → Mem x xs → P x) → All P xs
  All-of_mem [] h = tt
  All-of_mem (x ∷ xs) h = (h x mem-cons_self, All-of_mem xs (λ y m. h y (mem-cons_of_mem x m)))

  pub All_lem : (xs : List A) → ((x : A) → P x) → All P xs
  All_lem [] h = tt
  All_lem (x ∷ xs) h = (h x, All_lem xs h)

  pub All-keep_if : (p : A → Bool) (xs : List A) → All P xs → All P (keep_if p xs)
  All-keep_if p [] h = tt
  All-keep_if p (x ∷ xs) h = elim (Bool-cases (p x)) [
    | inl e ↦ rw e (h.0, All-keep_if p xs h.1)
    | inr e ↦ rw e (All-keep_if p xs h.1)
  ]

pub All-keep_if_test {ℓ} :
    {A : Type ℓ} (p : A → Bool) (xs : List A) → All (λ x. p x ≡ true) (keep_if p xs)
All-keep_if_test p [] = tt
All-keep_if_test p (x ∷ xs) = elim (Bool-cases (p x)) [
  | inl e ↦ rw e (e, All-keep_if_test p xs)
  | inr e ↦ rw e (All-keep_if_test p xs)
]

pub All-mono {ℓ κ κ'} :
    {A : Type ℓ} (P : A → Type κ) (Q : A → Type κ') (xs : List A)
    → ((x : A) → P x → Q x)
    → All P xs
    → All Q xs
All-mono P Q [] f h = tt
All-mono P Q (x ∷ xs) f h = (f x h.0, All-mono P Q xs f h.1)

pub All-zip {ℓ κ κ'} :
    {A : Type ℓ} (P : A → Type κ) (Q : A → Type κ') (xs : List A)
    → All P xs
    → All Q xs
    → All (λ x. P x × Q x) xs
All-zip P Q [] h k = tt
All-zip P Q (x ∷ xs) h k = ((h.0, k.0), All-zip P Q xs h.1 k.1)

pub All-map {ℓ κ μ} :
    {A : Type ℓ} {B : Type κ} (P : B → Type μ) (f : A → B) (xs : List A)
    → All (λ x. P (f x)) xs
    → All P (map f xs)
All-map P f [] h = tt
All-map P f (x ∷ xs) h = (h.0, All-map P f xs h.1)

pub mem-keep_if {ℓ} :
    {A : Type ℓ} (p : A → Bool) (a : A) (xs : List A) → Mem a xs → p a ≡ true → Mem a (keep_if p xs)
mem-keep_if p a [] m h = absurd (not-mem-nil m)
mem-keep_if p a (x ∷ xs) m h =
    Or.elim Mem-prop (mem-cons.0 m) (λ e. rw (subst (λ z. p z ≡ true) e h) (rw e mem-cons_self))
      (λ rest. elim (Bool-cases (p x)) [
        | inl t ↦ rw t (mem-cons_of_mem x (mem-keep_if p a xs rest h))
        | inr t ↦ rw t (mem-keep_if p a xs rest h)
      ])

-- A proposition about all members holds of each.
pub All-mem {ℓ κ} :
    {A : Type ℓ} (P : A → Type κ) (prop : (a : A) → IsProp (P a)) (a : A) (xs : List A)
    → All P xs
    → Mem a xs
    → P a
All-mem P prop a [] h m = absurd (not-mem-nil m)
All-mem P prop a (x ∷ xs) h m =
    Or.elim (prop a) (mem-cons.0 m) (λ e. subst P (sym e) h.0)
      (λ rest. All-mem P prop a xs h.1 rest)

pub All-perm {ℓ κ} :
    {A : Type ℓ} (P : A → Type κ) (prop : (a : A) → IsProp (P a)) (xs ys : List A)
    → Perm ys xs
    → All P xs
    → All P ys
All-perm P prop xs ys p h = All-of_mem P ys (λ a m. All-mem P prop a xs h ((Perm.mem_iff p).0 m))

-- The property holds of the value, where there is one.
abbrev pub Whenever {ℓ κ} : {A : Type ℓ} → (A → Type κ) → Option A → Type κ
Whenever P none = Unit
Whenever P (some a) = P a
