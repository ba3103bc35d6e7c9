-- ===== src/PortMux/Methods.antt =====
-- The methods of HTTP as prefixes of a connection (portmux.go).
use bitlab.Prelude.{
  ℕ, ◌≤◌, ◌≡◌, refl, sym, ◌==◌, Bool, true, false, inl, inr, List, [], ◌∷◌, ◌++◌, Bytes, bytes_eq,
  bytes_eq_iff, bytes_eq_refl, has_prefix, has_prefix-append, length, length-append, leb, any, All,
  &&_true, ==_iff, Bool-cases, arith,
}
use mathlib.Core.Path.{subst, ap₂}
use mathlib.Core.Bool.{false≢true}
use bitlab.PortMux.Sniff.{http_methods, is_method, is_possible, protocol_length}

pub any_prefix :
    (buf rest : Bytes) (xs : List Bytes)
    → any (bytes_eq buf) xs ≡ true
    → any (has_prefix (buf ++ rest)) xs ≡ true
any_prefix buf rest [] h = h
any_prefix buf rest (x ∷ xs) h = elim (Bool-cases (bytes_eq buf x)) [
  | inl t ↦
      rw
        (subst (λ z. has_prefix (buf ++ rest) z ≡ true) ((bytes_eq_iff buf x).0 t)
          (has_prefix-append buf rest))
        refl
  | inr f ↦ ground (arith, any_prefix buf rest xs, h, f)
]

pub any_possible :
    (buf s : Bytes) (xs : List Bytes)
    → any (bytes_eq (buf ++ s)) xs ≡ true
    → any (λ x. has_prefix x buf) xs ≡ true
any_possible buf s [] h = h
any_possible buf s (x ∷ xs) h = elim (Bool-cases (bytes_eq (buf ++ s) x)) [
  | inl t ↦
      rw
        (subst (λ z. has_prefix z buf ≡ true) ((bytes_eq_iff (buf ++ s) x).0 t)
          (has_prefix-append buf s))
        refl
  | inr f ↦ ground (arith, any_possible buf s xs, h, f)
]

module _ (p : Bytes → Bool) (x : Bytes) (xs : List Bytes) where
  any_tail : any p (x ∷ xs) ≡ true → p x ≡ false → any p xs ≡ true
  any_tail h e = ground arith

  any_later : any p xs ≡ true → any p (x ∷ xs) ≡ true
  any_later h = ground arith

pub any_true :
    (P : Bytes → Type 0) (m : Bytes) (xs : List Bytes) → All P xs → any (bytes_eq m) xs ≡ true → P m
any_true P m [] h e = absurd (false≢true e)
any_true P m (x ∷ xs) h e = elim (Bool-cases (bytes_eq m x)) [
  | inl t ↦ subst P (sym ((bytes_eq_iff m x).0 t)) h.0
  | inr f ↦ any_true P m xs h.1 (any_tail (bytes_eq m) x xs e f)
]

pub has_prefix_split : (c p : Bytes) → has_prefix c p ≡ true → (t : Bytes) × (p ++ t ≡ c)
unfolding has_prefix
has_prefix_split c [] h = (c, refl)
has_prefix_split [] (y ∷ p) h = absurd (false≢true h)
has_prefix_split (x ∷ c) (y ∷ p) h =
    let (t, e) = has_prefix_split c p (&&_true _ _ h).1 in
    (t, ap₂ ◌∷◌ (sym ((==_iff x y).0 (&&_true _ _ h).0)) e)

pub any_split :
    (c : Bytes) (xs : List Bytes)
    → any (has_prefix c) xs ≡ true
    → (m : Bytes) × (t : Bytes) × (m ++ t ≡ c) × (any (bytes_eq m) xs ≡ true)
any_split c [] h = absurd (false≢true h)
any_split c (x ∷ xs) h = elim (Bool-cases (has_prefix c x)) [
  | inl hit ↦ let (t, e) = has_prefix_split c x hit in (x, t, e, rw (bytes_eq_refl x) refl)
  | inr miss ↦
      let (m, t, e, found) = any_split c xs (any_tail (has_prefix c) x xs h miss) in
      (m, t, e, any_later (bytes_eq m) x xs found)
]

pub method_possible : (buf s : Bytes) → is_method (buf ++ s) ≡ true → is_possible buf ≡ true
unfolding is_method is_possible
method_possible buf s h = any_possible buf s http_methods h

pub method_short : (m : Bytes) → is_method m ≡ true → length m ≤ 8
unfolding is_method
method_short m h =
    any_true (λ x. length x ≤ 8) m http_methods
      (
        omega arith,
        (
          omega arith,
          (
            omega arith,
            (
              omega arith,
              (
                omega arith,
                (omega arith, (omega arith, (omega arith, (omega arith, (omega arith, tt))))),
              ),
            ),
          ),
        ),
      )
      h

pub buf_short :
    (buf s : Bytes) (b : ℕ) → is_method (buf ++ b ∷ s) ≡ true → leb 8 (length buf) ≡ false
buf_short buf s b h = ground (arith, method_short (buf ++ b ∷ s) h, length-append buf (b ∷ s))

-- No method begins as a handshake does.
abbrev pub OpensWeb : Bytes → Type 0
OpensWeb [] = Unit
OpensWeb (b ∷ m) = (b == protocol_length) ≡ false

pub method-OpensWeb : (m : Bytes) → is_method m ≡ true → OpensWeb m
unfolding is_method
method-OpensWeb m h =
    any_true OpensWeb m http_methods
      (refl, (refl, (refl, (refl, (refl, (refl, (refl, (refl, (refl, (refl, tt)))))))))) h
