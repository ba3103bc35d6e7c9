-- ===== src/Admin/Throttle.antt =====
-- The failures of an address in the window of `failWindow` (admin.go), under each of its operations.
use bitlab.Prelude.{
  ℕ, suc, ◌+◌, ◌≤◌, ◌≡◌, refl, ◌∙◌, ap, true, List, [], ◌∷◌, ◌++◌, Bytes, bytes_eq, bytes_eq_iff,
  if◌then◌else◌, leb, length, length-append, Bool-cases, inl, inr, arith,
}
use bitlab.Prelude.Int.{ℤ, ltb_ℤ, ◌-ℤ◌}
use bitlab.Prelude.Assoc.{insert, erase, lookup-insert, lookup-erase}
use bitlab.Admin.Window.{Hits, cut_of, hits_of, recent, blocked, bounded, fail, reset}

-- The failures of an address inside the window.
abbrev pub failures : Bytes → ℤ → Hits → ℕ
failures ip now hits = length (recent now (hits_of ip hits))

recent_twice : (now : ℤ) (ts : List ℤ) → recent now (recent now ts) ≡ recent now ts
unfolding recent
recent_twice now [] = refl
recent_twice now (t ∷ ts) = elim (Bool-cases (ltb_ℤ (cut_of now) t)) [
  | inl late ↦ rw late (rw late (ap (◌∷◌ t) (recent_twice now ts)))
  | inr early ↦ rw early (recent_twice now ts)
]

recent-append : (now : ℤ) (ts us : List ℤ) → recent now (ts ++ us) ≡ recent now ts ++ recent now us
unfolding recent
recent-append now [] us = refl
recent-append now (t ∷ ts) us = elim (Bool-cases (ltb_ℤ (cut_of now) t)) [
  | inl late ↦ rw late (ap (◌∷◌ t) (recent-append now ts us))
  | inr early ↦ rw early (recent-append now ts us)
]

hits_of-insert :
    (ip ip' : Bytes) (ts : List ℤ) (hits : Hits)
    → hits_of ip' (insert ip ts hits) ≡ (if bytes_eq ip ip' then ts else hits_of ip' hits)
unfolding hits_of
hits_of-insert ip ip' ts hits = ground (arith, lookup-insert ip ip' ts hits)

hits_of-erase :
    (ip ip' : Bytes) (hits : Hits)
    → hits_of ip' (erase ip hits) ≡ (if bytes_eq ip ip' then [] else hits_of ip' hits)
unfolding hits_of
hits_of-erase ip ip' hits = ground (arith, lookup-erase ip ip' hits)

same_address : (ip ip' : Bytes) → bytes_eq ip ip' ≡ true → ip ≡ ip'
same_address ip ip' h = (bytes_eq_iff ip ip').0 h

no_failures : (now : ℤ) (ts : List ℤ) → leb (length ts) 0 ≡ true → 0 ≡ length ts
no_failures now ts h = ground arith

failures-insert-recent :
    (ip ip' : Bytes) (now : ℤ) (hits : Hits)
    → failures ip' now (insert ip (recent now (hits_of ip hits)) hits) ≡ failures ip' now hits
failures-insert-recent ip ip' now hits = elim (Bool-cases (bytes_eq ip ip')) [
  | inl same ↦
      rw (hits_of-insert, same, recent_twice)
        (ap (λ j. length (recent now (hits_of j hits))) (same_address ip ip' same))
  | inr other ↦ rw (hits_of-insert, other)
]

failures-erase_cold :
    (ip ip' : Bytes) (now : ℤ) (hits : Hits)
    → leb (failures ip now hits) 0 ≡ true
    → failures ip' now (erase ip hits) ≡ failures ip' now hits
unfolding recent
failures-erase_cold ip ip' now hits h = elim (Bool-cases (bytes_eq ip ip')) [
  | inl same ↦
      rw (hits_of-erase, same)
        (no_failures now (recent now (hits_of ip hits)) h
          ∙ ap (λ j. length (recent now (hits_of j hits))) (same_address ip ip' same))
  | inr other ↦ rw (hits_of-erase, other)
]

-- The test forgets old hits and nothing else: at the same time every address has the same number
-- of failures after it.
pub blocked-failures :
    (ip ip' : Bytes) (now : ℤ) (hits : Hits)
    → failures ip' now (blocked ip now hits).1 ≡ failures ip' now hits
unfolding blocked
blocked-failures ip ip' now hits = elim (Bool-cases (leb (failures ip now hits) 0)) [
  | inl none_left ↦ rw none_left (failures-erase_cold ip ip' now hits none_left)
  | inr some_left ↦ rw some_left (failures-insert-recent ip ip' now hits)
]

bounded_small : (now : ℤ) (hits : Hits) → length hits ≤ 10_000 → bounded now hits ≡ hits
unfolding bounded
bounded_small now hits small = ground arith

recent_now : (now : ℤ) → recent now (now ∷ []) ≡ now ∷ []
unfolding recent cut_of ◌-ℤ◌
recent_now now = ground arith

-- A failure counts for its own address and for no other, while the table holds at most ten
-- thousand addresses.
pub failures-fail :
    (ip ip' : Bytes) (now : ℤ) (hits : Hits)
    → length hits ≤ 10_000
    → failures ip' now (fail ip now hits)
      ≡ (if bytes_eq ip ip' then failures ip' now hits + 1 else failures ip' now hits)
unfolding fail
failures-fail ip ip' now hits small = elim (Bool-cases (bytes_eq ip ip')) [
  | inl same ↦
      rw
        (
          bounded_small now hits small,
          hits_of-insert,
          same,
          recent-append,
          recent_now,
          length-append,
        )
        (ap (λ j. length (recent now (hits_of j hits)) + 1) (same_address ip ip' same))
  | inr other ↦ rw (bounded_small now hits small, hits_of-insert, other)
]

-- A reset clears its own address and no other.
pub failures-reset :
    (ip ip' : Bytes) (now : ℤ) (hits : Hits)
    → failures ip' now (reset ip hits) ≡ (if bytes_eq ip ip' then 0 else failures ip' now hits)
unfolding reset recent
failures-reset ip ip' now hits = elim (Bool-cases (bytes_eq ip ip')) [
  | inl same ↦ rw (hits_of-erase, same)
  | inr other ↦ rw (hits_of-erase, other)
]

length-insert-le :
    (ip : Bytes) (ts : List ℤ) (hits : Hits) → length (insert ip ts hits) ≤ suc (length hits)
unfolding insert
length-insert-le ip ts [] = omega arith
length-insert-le ip ts ((j, us) ∷ hits) = ground (arith, length-insert-le ip ts hits)

-- The table never holds more than 10,001 addresses after a failure, whatever it held before.
pub length-fail-le : (ip : Bytes) (now : ℤ) (hits : Hits) → length (fail ip now hits) ≤ 10_001
unfolding fail
length-fail-le ip now hits = omega (
  arith,
  length-insert-le ip (hits_of ip (bounded now hits) ++ now ∷ []) (bounded now hits),
  length-bounded-le now hits,
)
  where
    length-bounded-le : (now : ℤ) (hits : Hits) → length (bounded now hits) ≤ 10_000
    length-bounded-le now hits = unfold bounded in ground arith
