-- ===== src/Aliases/Picked.antt =====
-- anilist.go: the names that `pickAliases` keeps.
use bitlab.Prelude.{
  ℕ, suc, ◌+◌, ◌==◌, ◌≡◌, ◌≤◌, true, false, ◌||◌, List, [], ◌∷◌, inl, inr, Bytes, bytes_eq,
  if◌then◌else◌, ltb, length, any, Bool-cases, ||_false, arith,
}
use bitlab.Prelude.Trim.{trim_space}
use bitlab.Engine.Title.{join_spaces}
use bitlab.Aliases.Pick.{Unicode, is_latin, pick_from, pick_aliases}

module _ (u : Unicode) where
  -- A name of three to seventy bytes in latin script.
  pub record IsName (s : Bytes) : Type 0 where
    pub long_enough : 3 ≤ length s
    pub short_enough : length s ≤ 70
    pub latin : is_latin u s ≡ true

  -- Names whose lower case is neither among the keys nor that of a name before it.
  pub AreNew : List Bytes → List Bytes → Type 0
  AreNew seen [] = Unit {0}
  AreNew seen (x ∷ xs) =
      IsName x × (any (bytes_eq (u.to_lower x)) seen ≡ false) × AreNew (u.to_lower x ∷ seen) xs

  in_bounds :
      (s : Bytes) → (ltb (length s) 3 || ltb 70 (length s)) ≡ false → is_latin u s ≡ true → IsName s
  in_bounds s h latin =
      let (long, short) = ||_false (ltb (length s) 3) (ltb 70 (length s)) h in
      record { long_enough = ground arith; short_enough = ground arith; latin = latin }

  -- A round of the loop: the name is passed over, or it is one to keep.
  pick-cases :
      (P : List Bytes → Type 0) (n : ℕ) (seen : List Bytes) (c : Bytes) (cs : List Bytes)
      → P (pick_from u n seen cs)
      → (IsName (join_spaces (u.fields c))
          → any (bytes_eq (u.to_lower (join_spaces (u.fields c)))) seen ≡ false
          → P (
              if suc n == 3
              then join_spaces (u.fields c) ∷ []
              else join_spaces (u.fields c)
                ∷ pick_from u (suc n) (u.to_lower (join_spaces (u.fields c)) ∷ seen) cs))
      → P (pick_from u n seen (c ∷ cs))
  unfolding pick_from
  pick-cases P n seen c cs skipped taken =
      let name = join_spaces (u.fields c) in
      elim (Bool-cases (ltb (length name) 3 || ltb 70 (length name))) [
        | inl e ↦ rw e skipped
        | inr e ↦ elim (Bool-cases (is_latin u name)) [
          | inr f ↦ rw (e, f) skipped
          | inl f ↦ elim (Bool-cases (any (bytes_eq (u.to_lower name)) seen)) [
            | inl g ↦ rw (e, f, g) skipped
            | inr g ↦ rw (e, f, g) (taken (in_bounds name e f) g)
          ]
        ]
      ]

  pick_from-AreNew :
      (n : ℕ) (seen cs : List Bytes)
      → n ≤ 2
      → (n + length (pick_from u n seen cs) ≤ 3) × AreNew seen (pick_from u n seen cs)
  unfolding AreNew pick_from
  pick_from-AreNew n seen [] h = (ground arith, tt)
  pick_from-AreNew n seen (c ∷ cs) h =
      pick-cases (λ r. (n + length r ≤ 3) × AreNew seen r) n seen c cs
        (pick_from-AreNew n seen cs h)
        (λ good new. elim (Bool-cases (suc n == 3)) [
          | inl e ↦ rw e (ground arith, (good, new, tt))
          | inr e ↦
              let name = join_spaces (u.fields c) in
              let (few, rest) =
                pick_from-AreNew (suc n) (u.to_lower name ∷ seen) cs (ground arith) in
              rw e (omega (arith, few), (good, new, rest))
        ])

  -- Whatever the candidates, pickAliases keeps three names at most, each of three to seventy bytes
  -- and in latin script, and no two of them, nor one and the original title, are the same in lower
  -- case.
  pub pick_aliases-AreNew :
      (original : Bytes) (candidates : List Bytes)
      → (length (pick_aliases u original candidates) ≤ 3)
        × AreNew (u.to_lower (trim_space original) ∷ []) (pick_aliases u original candidates)
  unfolding pick_aliases
  pick_aliases-AreNew original candidates =
      let (few, new) =
        pick_from-AreNew 0 (u.to_lower (trim_space original) ∷ []) candidates (omega arith) in
      (omega (arith, few), new)
