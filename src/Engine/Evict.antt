-- ===== src/Engine/Evict.antt =====
-- engine.go: `evictOldest`, and what it may drop.
use mathlib.Core.Path.{ap₂}
use bitlab.Prelude.{
  ℕ, zero, suc, ◌≡◌, ◌⊎◌, inl, inr, refl, Bool, true, false, ◌||◌, [], ◌∷◌, Option, none, some,
  Bytes, bytes_eq, In, All, ap, ◌∙◌, if◌then◌else◌, length, arith, Bool-cases,
}
use bitlab.Prelude.Int.{ℤ, pos, ltb_ℤ, ◌≤ℤ◌}
use bitlab.Prelude.Assoc.{Assoc, lookup, erase}
use bitlab.Engine.State.{Activity, Engine, find_torrent, drop_torrent, remove_lock, is_busy}

-- One turn of the search: the entry chosen so far, and its time. No infohash is empty.
unfoldable pub older : Bytes → Activity → Bytes × ℤ → Bytes × ℤ
unfolding is_busy bytes_eq
older ih a (oldest, when) =
    if is_busy a
    then (oldest, when)
    else if bytes_eq oldest [] || ltb_ℤ a.last_access when
    then (ih, a.last_access)
    else (oldest, when)

-- The search of one round.
unfoldable pub find_oldest : Assoc Activity → Bytes × ℤ → Bytes × ℤ
unfolding older
find_oldest [] best = best
find_oldest ((ih, a) ∷ m) best = find_oldest m (older ih a best)

abbrev pub no_oldest : Bytes × ℤ
no_oldest = ([], pos 0)

-- The rounds of `evictOldest`. `none`: the fuel ran out.
unfoldable pub evict_loop : ℕ → Engine → Option (Bool × Engine)
unfolding find_oldest find_torrent drop_torrent erase bytes_eq
evict_loop zero e = none
evict_loop (suc f) e =
    let oldest = (find_oldest e.act no_oldest).0 in
    let e' : Engine = record e {
      act = erase oldest e.act;
      add_locks = remove_lock oldest e.add_locks;
    } in
    let again = evict_loop f e' in
    if bytes_eq oldest [] then some (false, e) else elim (find_torrent oldest e.client) [
      | none ↦ again
      | some t ↦ some (true, record e' { client = drop_torrent oldest e.client })
    ]

-- `evictOldest`: each round but the last deletes an entry.
unfoldable pub evict_oldest : Engine → Option (Bool × Engine)
unfolding evict_loop
evict_oldest e = evict_loop (suc (length e.act)) e

-- A table: keys are distinct, and none is empty.
abbrev pub IsTable : Assoc Activity → Type 0
IsTable [] = Unit
IsTable ((ih, a) ∷ m) = (bytes_eq ih [] ≡ false) × (lookup ih m ≡ none) × IsTable m

-- The search ends with what it began with, or with an entry of the table that is not busy.
pub find_oldest_source :
    (m : Assoc Activity) (best : Bytes × ℤ)
    → (find_oldest m best ≡ best)
      ⊎ ((a : Activity) × In ((find_oldest m best).0, a) m
          × (is_busy a ≡ false)
          × ((find_oldest m best).1 ≡ a.last_access))
unfolding find_oldest
find_oldest_source [] best = inl refl
find_oldest_source ((ih, a) ∷ m) best = elim (find_oldest_source m (older ih a best)) [
  | inr (b, there, idle, at) ↦ inr (b, inr there, idle, at)
  | inl same ↦ elim (older-cases ih a best) [
    | inl kept ↦ inl (same ∙ kept)
    | inr (idle, taken) ↦ inr (
      a,
      inl (ap₂ (λ x y. (x, y)) (ap (λ p. p.0) (same ∙ taken)) refl),
      idle,
      ap (λ p. p.1) (same ∙ taken),
    )
  ]
]
  where
    older-cases :
        (ih : Bytes) (a : Activity) (best : Bytes × ℤ)
        → (older ih a best ≡ best) ⊎ ((is_busy a ≡ false) × (older ih a best ≡ (ih, a.last_access)))
    older-cases ih a best =
        unfold older in
        elim (Bool-cases (is_busy a)) [
          | inl busy ↦ inl (rw busy)
          | inr idle ↦ elim (Bool-cases (bytes_eq best.0 [] || ltb_ℤ a.last_access best.1)) [
            | inl t ↦ inr (idle, rw (idle, t))
            | inr t ↦ inl (rw (idle, t))
          ]
        ]

-- The search ends with the earliest time of the entries that are not busy.
pub find_oldest_min :
    (m : Assoc Activity) (best : Bytes × ℤ)
    → IsTable m
    → All
        (λ (x : Bytes × Activity). is_busy x.1 ≡ false → (find_oldest m best).1 ≤ℤ x.1.last_access)
        m
      × (bytes_eq best.0 [] ≡ false → (find_oldest m best).1 ≤ℤ best.1)
unfolding find_oldest older
find_oldest_min [] best h = (tt, λ _. omega arith)
find_oldest_min ((ih, a) ∷ m) best h =
    let rest = find_oldest_min m (older ih a best) h.2 in
    ((λ idle. ground arith, rest.0), λ some_best. ground arith)

-- An empty name stands for a table of busy entries.
pub find_oldest_none :
    (m : Assoc Activity) (best : Bytes × ℤ)
    → IsTable m
    → bytes_eq (find_oldest m best).0 [] ≡ true
    → All (λ (x : Bytes × Activity). is_busy x.1 ≡ true) m × (bytes_eq best.0 [] ≡ true)
unfolding find_oldest older
find_oldest_none [] best h e = (tt, e)
find_oldest_none ((ih, a) ∷ m) best h e =
    let rest = find_oldest_none m (older ih a best) h.2 e in ground arith
