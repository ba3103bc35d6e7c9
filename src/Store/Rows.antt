-- ===== src/Store/Rows.antt =====
-- The rows of the `keys` table under the statements of store.go: lookup by token, and the
-- uniqueness of ids and tokens.
use bitlab.Prelude.{
  ◌≡◌, refl, ◌∙◌, sym, Bool, true, false, ◌||◌, inl, inr, List, [], ◌∷◌, ◌++◌, none, some, Bytes,
  bytes_eq, bytes_eq_iff, bytes_eq_refl, if◌then◌else◌, keep_if, not, any, Bool-cases, arith,
  some_inj, ||_false,
}
use mathlib.Core.Path.{subst}
use mathlib.Core.Option.{none-ne-some}
use mathlib.Core.List.{Mem, mem-cons_self, mem-cons_of_mem}
use bitlab.Store.Keys.{Key, Keys, row_by_token, clashes, delete_rows, update_rows}

-- No two rows share an id or a token.
abbrev pub IsWellFormed : Keys → Type 0
IsWellFormed [] = Unit
IsWellFormed (k ∷ ks) = (clashes k ks ≡ false) × IsWellFormed ks

module _ {A : Type 0} where
  pub any-keep_if : (p q : A → Bool) (xs : List A) → any p xs ≡ false → any p (keep_if q xs) ≡ false
  any-keep_if p q [] h = refl
  any-keep_if p q (x ∷ xs) h = ground (arith, any-keep_if p q xs)

  pub any-append : (p : A → Bool) (xs ys : List A) → any p (xs ++ ys) ≡ (any p xs || any p ys)
  any-append p [] ys = refl
  any-append p (x ∷ xs) ys = ground (arith, any-append p xs ys)

  pub any-cons :
      (p : A → Bool) (x : A) (xs : List A)
      → any p (x ∷ xs) ≡ false
      → (p x ≡ false) × (any p xs ≡ false)
  any-cons p x xs h = ground arith

pub tail-IsWellFormed : (k : Key) (ks : Keys) → IsWellFormed (k ∷ ks) → IsWellFormed ks
tail-IsWellFormed k ks w = w.1

pub bytes_eq_comm : (xs ys : Bytes) → bytes_eq xs ys ≡ bytes_eq ys xs
bytes_eq_comm xs ys = ground (arith, bytes_eq_iff xs ys, bytes_eq_iff ys xs)

pub keep_if-IsWellFormed :
    (q : Key → Bool) (ks : Keys) → IsWellFormed ks → IsWellFormed (keep_if q ks)
unfolding clashes
keep_if-IsWellFormed q [] h = tt
keep_if-IsWellFormed q (k ∷ ks) h = elim (Bool-cases (q k)) [
  | inl t ↦ rw t (
    any-keep_if (λ j. bytes_eq k.id j.id || bytes_eq k.token j.token) q ks h.0,
    keep_if-IsWellFormed q ks h.1,
  )
  | inr f ↦ rw f (keep_if-IsWellFormed q ks h.1)
]

module _ (token : Bytes) (j : Key) (ks : Keys) where
  pub row_by_token_hit : bytes_eq j.token token ≡ true → row_by_token token (j ∷ ks) ≡ some j
  unfolding row_by_token
  row_by_token_hit h = rw h refl

  pub row_by_token_miss :
      bytes_eq j.token token ≡ false → row_by_token token (j ∷ ks) ≡ row_by_token token ks
  unfolding row_by_token
  row_by_token_miss h = rw h refl

-- A row that is found is in the table, has the token asked for.
pub row_by_token_sound :
    (token : Bytes) (ks : Keys) (k : Key)
    → row_by_token token ks ≡ some k
    → Mem k ks × (bytes_eq k.token token ≡ true)
unfolding row_by_token
row_by_token_sound token [] k h = absurd (none-ne-some _ h)
row_by_token_sound token (j ∷ ks) k h = elim (Bool-cases (bytes_eq j.token token)) [
  | inl t ↦
      subst (λ z. Mem z (j ∷ ks) × (bytes_eq z.token token ≡ true))
        (some_inj (sym (row_by_token_hit token j ks t) ∙ h)) (mem-cons_self, t)
  | inr f ↦
      let (m, e) = row_by_token_sound token ks k (sym (row_by_token_miss token j ks f) ∙ h) in
      (mem-cons_of_mem j m, e)
]

pub row_by_token-append :
    (token : Bytes) (ks js : Keys)
    → row_by_token token ks ≡ none
    → row_by_token token (ks ++ js) ≡ row_by_token token js
unfolding row_by_token
row_by_token-append token [] js h = refl
row_by_token-append token (k ∷ ks) js h = elim (Bool-cases (bytes_eq k.token token)) [
  | inl t ↦ absurd (none-ne-some _ (sym h ∙ row_by_token_hit token k ks t))
  | inr f ↦ rw f (row_by_token-append token ks js (sym (row_by_token_miss token k ks f) ∙ h))
]

-- The updates of store.go keep the token.
pub row_by_token-update_rows :
    (token id : Bytes) (f : Key → Key) (ks : Keys) (k : Key)
    → ((j : Key) → (f j).token ≡ j.token)
    → row_by_token token ks ≡ some k
    → row_by_token token (update_rows id f ks) ≡ some (if bytes_eq k.id id then f k else k)
unfolding update_rows row_by_token
row_by_token-update_rows token id f [] k same h = absurd (none-ne-some _ h)
row_by_token-update_rows token id f (j ∷ ks) k same h = elim (Bool-cases (bytes_eq j.token token)) [
  | inl t ↦
      subst
        (λ z.
          row_by_token token (update_rows id f (j ∷ ks))
          ≡ some (if bytes_eq z.id id then f z else z))
        (some_inj (sym (row_by_token_hit token j ks t) ∙ h))
        (elim (Bool-cases (bytes_eq j.id id)) [
          | inl hit ↦ rw (hit, same j, t) refl
          | inr miss ↦ rw (miss, t) refl
        ])
  | inr e ↦
      let rest =
        row_by_token-update_rows token id f ks k same (sym (row_by_token_miss token j ks e) ∙ h) in
      elim (Bool-cases (bytes_eq j.id id)) [
        | inl hit ↦ rw (hit, same j, e) rest
        | inr miss ↦ rw (miss, e) rest
      ]
]

-- A row with another id or token than all others is not found among them.
pub clashes_token : (k : Key) (ks : Keys) → clashes k ks ≡ false → row_by_token k.token ks ≡ none
unfolding clashes row_by_token
clashes_token k [] h = refl
clashes_token k (j ∷ ks) h =
    let (here, there) = any-cons (λ i. bytes_eq k.id i.id || bytes_eq k.token i.token) j ks h in
    rw
      (
        bytes_eq_comm j.token k.token,
        (||_false (bytes_eq k.id j.id) (bytes_eq k.token j.token) here).1,
      )
      (clashes_token k ks there)

pub row_by_token-keep_if :
    (token : Bytes) (q : Key → Bool) (ks : Keys)
    → row_by_token token ks ≡ none
    → row_by_token token (keep_if q ks) ≡ none
unfolding row_by_token
row_by_token-keep_if token q [] h = h
row_by_token-keep_if token q (j ∷ ks) h = elim (Bool-cases (bytes_eq j.token token)) [
  | inl t ↦ absurd (none-ne-some _ (sym h ∙ row_by_token_hit token j ks t))
  | inr f ↦
      let rest = row_by_token-keep_if token q ks (sym (row_by_token_miss token j ks f) ∙ h) in
      elim (Bool-cases (q j)) [ inl keep ↦ rw (keep, f) rest | inr out ↦ rw out rest ]
]

-- The other rows of a row that has the token do not have it.
pub row_by_token_once :
    (token : Bytes) (j : Key) (ks : Keys)
    → IsWellFormed (j ∷ ks)
    → bytes_eq j.token token ≡ true
    → row_by_token token ks ≡ none
row_by_token_once token j ks w t =
    subst (λ z. row_by_token z ks ≡ none) ((bytes_eq_iff j.token token).0 t)
      (clashes_token j ks w.0)

-- Under a test that the found row passes, it is still found; where it fails, no row is.
pub row_by_token-keep_if-some :
    (token : Bytes) (q : Key → Bool) (ks : Keys) (k : Key)
    → IsWellFormed ks
    → row_by_token token ks ≡ some k
    → row_by_token token (keep_if q ks) ≡ (if q k then some k else none)
unfolding row_by_token
row_by_token-keep_if-some token q [] k w h = absurd (none-ne-some _ h)
row_by_token-keep_if-some token q (j ∷ ks) k w h = elim (Bool-cases (bytes_eq j.token token)) [
  | inl t ↦
      subst (λ z. row_by_token token (keep_if q (j ∷ ks)) ≡ (if q z then some z else none))
        (some_inj (sym (row_by_token_hit token j ks t) ∙ h))
        (elim (Bool-cases (q j)) [
          | inl keep ↦ rw (keep, t) refl
          | inr out ↦ rw out (row_by_token-keep_if token q ks (row_by_token_once token j ks w t))
        ])
  | inr f ↦
      let rest =
        row_by_token-keep_if-some token q ks k (tail-IsWellFormed j ks w)
          (sym (row_by_token_miss token j ks f) ∙ h) in
      elim (Bool-cases (q j)) [ inl keep ↦ rw (keep, f) rest | inr out ↦ rw out rest ]
]

-- Without the row that has it, a token is not found.
pub row_by_token-delete_rows :
    (token : Bytes) (ks : Keys) (k : Key)
    → IsWellFormed ks
    → row_by_token token ks ≡ some k
    → row_by_token token (delete_rows k.id ks) ≡ none
unfolding delete_rows
row_by_token-delete_rows token ks k w h =
    row_by_token-keep_if-some token (λ j. not (bytes_eq j.id k.id)) ks k w h
    ∙ rw (bytes_eq_refl k.id) refl
