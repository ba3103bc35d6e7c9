-- ===== src/Search/Ranked.antt =====
-- indexers.go: the list that `searchAll` answers with.
use bitlab.Prelude.{
  ℕ, zero, suc, ◌≡◌, ◌≤◌, ◌⊎◌, Bool, true, false, ◌&&◌, List, [], ◌∷◌, inl, inr, Bytes,
  bytes_eq_iff, length, take, All, Bool-cases, arith,
}
use bitlab.Prelude.Int.{ℤ, pos, ltb_ℤ}
use bitlab.Prelude.Members.{All-mono}
use bitlab.Prelude.Pairs.{Pairwise}
use bitlab.Search.Merge.{SearchResult, move_left, sort_back}
use bitlab.Search.Merged.{Differ}

-- What a comparison of scores satisfies, where none of them is NaN.
pub record IsScoreOrder (above : SearchResult → SearchResult → Bool) : Type 0 where
  pub asym : (a b : SearchResult) → above a b ≡ true → above b a ≡ false
  pub trans : (a b c : SearchResult) → above a b ≡ false → above b c ≡ false → above a c ≡ false

-- A list to choose from: short, by falling score, without duplicates, with no dead release unless all
-- are dead, and without another episode where one is asked for.
pub record IsAnswer (above : SearchResult → SearchResult → Bool) (signal : Bytes → ℤ) (asked : Bool)
    (rs : List SearchResult) : Type 0 where
  pub bounded : length rs ≤ 40
  pub ordered : Pairwise (λ a b. above b a ≡ false) rs
  pub distinct : Pairwise Differ rs
  pub live :
      All (λ r. ltb_ℤ (pos 0) r.seeders ≡ true) rs ⊎ All (λ r. ltb_ℤ (pos 0) r.seeders ≡ false) rs
  pub fitting : All (λ r. (asked && ltb_ℤ (signal r.title) (pos 0)) ≡ false) rs

pub Differ-sym : (a b : SearchResult) → Differ a b → Differ b a
Differ-sym a b h =
    ground (arith, bytes_eq_iff a.info_hash b.info_hash, bytes_eq_iff b.info_hash a.info_hash)

pub length-take-le {ℓ} : {A : Type ℓ} (n : ℕ) (xs : List A) → length (take n xs) ≤ n
length-take-le zero xs = omega arith
length-take-le (suc n) [] = omega arith
length-take-le (suc n) (x ∷ xs) = omega (arith, length-take-le n xs)

module _ (above : SearchResult → SearchResult → Bool) where
  move_left-All :
      (P : SearchResult → Type 0) (r : SearchResult) (xs : List SearchResult)
      → P r
      → All P xs
      → All P (move_left above r xs)
  unfolding move_left
  move_left-All P r [] p h = (p, tt)
  move_left-All P r (x ∷ xs) p h = elim (Bool-cases (above r x)) [
    | inl e ↦ rw e (h.0, move_left-All P r xs p h.1)
    | inr e ↦ rw e (p, h)
  ]

  pub sort_back-All :
      (P : SearchResult → Type 0) (back rs : List SearchResult)
      → All P back
      → All P rs
      → All P (sort_back above back rs)
  unfolding sort_back
  sort_back-All P back [] h k = h
  sort_back-All P back (r ∷ rs) h k =
      sort_back-All P (move_left above r back) rs (move_left-All P r back k.0 h) k.1

  move_left-Differ :
      (r : SearchResult) (xs : List SearchResult)
      → All (Differ r) xs
      → Pairwise Differ xs
      → Pairwise Differ (move_left above r xs)
  unfolding move_left
  move_left-Differ r [] h k = (tt, tt)
  move_left-Differ r (x ∷ xs) h k = elim (Bool-cases (above r x)) [
    | inl e ↦
        rw e (move_left-All (Differ x) r xs (Differ-sym r x h.0) k.0, move_left-Differ r xs h.1 k.1)
    | inr e ↦ rw e (h, k)
  ]

  pub sort_back-Differ :
      (back rs : List SearchResult)
      → All (λ r. All (Differ r) back) rs
      → Pairwise Differ rs
      → Pairwise Differ back
      → Pairwise Differ (sort_back above back rs)
  unfolding sort_back
  sort_back-Differ back [] h k l = l
  sort_back-Differ back (r ∷ rs) h k l =
      sort_back-Differ (move_left above r back) rs (later rs h.1 k.0) k.1
        (move_left-Differ r back h.0 l)
    where
      later :
          (ys : List SearchResult)
          → All (λ y. All (Differ y) back) ys
          → All (Differ r) ys
          → All (λ y. All (Differ y) (move_left above r back)) ys
      later [] h k = tt
      later (y ∷ ys) h k =
          (move_left-All (Differ y) r back (Differ-sym r y k.0) h.0, later ys h.1 k.1)

  module _ (order : IsScoreOrder above) where
    move_left-Pairwise :
        (r : SearchResult) (xs : List SearchResult)
        → Pairwise (λ a b. above a b ≡ false) xs
        → Pairwise (λ a b. above a b ≡ false) (move_left above r xs)
    unfolding move_left
    move_left-Pairwise r [] h = (tt, tt)
    move_left-Pairwise r (x ∷ xs) h = elim (Bool-cases (above r x)) [
      | inl e ↦ rw e (
        move_left-All (λ b. above x b ≡ false) r xs (order.asym r x e) h.0,
        move_left-Pairwise r xs h.1,
      )
      | inr e ↦ rw e (
        (
          e,
          All-mono (λ b. above x b ≡ false) (λ b. above r b ≡ false) xs
              (λ b k. order.trans r x b e k) h.0,
        ),
        h,
      )
    ]

    pub sort_back-Pairwise :
        (back rs : List SearchResult)
        → Pairwise (λ a b. above a b ≡ false) back
        → Pairwise (λ a b. above a b ≡ false) (sort_back above back rs)
    unfolding sort_back
    sort_back-Pairwise back [] h = h
    sort_back-Pairwise back (r ∷ rs) h =
        sort_back-Pairwise (move_left above r back) rs (move_left-Pairwise r back h)
