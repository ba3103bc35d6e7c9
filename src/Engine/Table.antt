-- ===== src/Engine/Table.antt =====
-- engine.go: the activity table as a map, under the operations that the engine makes on it.
use bitlab.Prelude.{
  ◌<◌, ◌≡◌, refl, false, [], ◌∷◌, some, Bytes, bytes_eq, bytes_eq_iff, bytes_eq_refl, length, arith,
  Bool-cases, inl, inr, In, All,
}
use bitlab.Prelude.Assoc.{
  Assoc, lookup, insert, erase, lookup-erase, lookup-insert, length-erase-le,
}
use bitlab.Engine.State.{Activity}
use bitlab.Engine.Evict.{IsTable}

pub erase-IsTable : (k : Bytes) (m : Assoc Activity) → IsTable m → IsTable (erase k m)
unfolding erase
erase-IsTable k [] h = tt
erase-IsTable k ((j, a) ∷ m) h = elim (Bool-cases (bytes_eq j k)) [
  | inl same ↦ rw same (erase-IsTable k m h.2)
  | inr other ↦ rw other (h.0, ground (arith, lookup-erase k j m), erase-IsTable k m h.2)
]

pub insert-IsTable :
    (k : Bytes) (a : Activity) (m : Assoc Activity)
    → bytes_eq k [] ≡ false
    → IsTable m
    → IsTable (insert k a m)
unfolding insert lookup
insert-IsTable k a [] e h = (e, refl, tt)
insert-IsTable k a ((j, b) ∷ m) e h = elim (Bool-cases (bytes_eq j k)) [
  | inl same ↦ rw same (h.0, h.1, h.2)
  | inr other ↦ rw other (
    h.0,
    ground (arith, lookup-insert k j a m, bytes_eq_iff j k, bytes_eq_iff k j),
    insert-IsTable k a m e h.2,
  )
]

pub lookup-of_In :
    (k : Bytes) (a : Activity) (m : Assoc Activity) → In (k, a) m → IsTable m → lookup k m ≡ some a
unfolding lookup
lookup-of_In k a ((j, b) ∷ m) (inl e) h = ground (arith, bytes_eq_refl k)
lookup-of_In k a ((j, b) ∷ m) (inr i) h = ground (arith, lookup-of_In k a m i h.2, bytes_eq_iff j k)
lookup-of_In k a [] i h = absurd i

pub length-erase-In :
    (k : Bytes) (a : Activity) (m : Assoc Activity) → In (k, a) m → length (erase k m) < length m
unfolding erase
length-erase-In k a ((j, b) ∷ m) (inl e) = ground (arith, bytes_eq_refl k, length-erase-le k m)
length-erase-In k a ((j, b) ∷ m) (inr i) =
    ground (arith, length-erase-In k a m i, length-erase-le k m)
length-erase-In k a [] i = absurd i

pub All-erase {κ} :
    (P : Bytes × Activity → Type κ) (k : Bytes) (m : Assoc Activity) → All P m → All P (erase k m)
unfolding erase
All-erase P k [] h = tt
All-erase P k ((j, a) ∷ m) h = elim (Bool-cases (bytes_eq j k)) [
  | inl same ↦ rw same (All-erase P k m h.1)
  | inr other ↦ rw other (h.0, All-erase P k m h.1)
]
