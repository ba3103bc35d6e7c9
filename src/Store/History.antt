-- ===== src/Store/History.antt =====
-- The `keys` table over a run of calls (store.go), and the rows that ActiveKeyCount counts.
use bitlab.Prelude.{
  ◌≡◌, refl, ◌∙◌, true, false, ◌||◌, inl, inr, [], ◌∷◌, ◌++◌, some, Bytes, bytes, bytes_eq,
  bytes_eq_iff, Bool-cases, Option-cases, arith, &&_true,
}
use bitlab.Prelude.Int.{ℤ, leb_ℤ, pos}
use bitlab.Store.Keys.{
  Key, Keys, row_by_token, clashes, new_key, create_key, found, delete_key, delete_rows, is_expired,
  key_by_token, judge, update_rows, set_key_status, delete_expired_keys, paused, counts_as_active,
  touch_key, add_key_bytes,
}
use bitlab.Store.Rows.{IsWellFormed, any-append, any-cons, bytes_eq_comm, keep_if-IsWellFormed}
use bitlab.Store.Resolve.{key_by_token-some, key_by_token-none, judge_live, judge_late}

-- One call on the table.
pub data Step : Keys → Keys → Type 0 where
  creates :
      (id token label note : Bytes) (ttl at now : ℤ) {ks : Keys}
      → Step ks (create_key id token label note ttl at now ks).1
  resolves : (token : Bytes) (now : ℤ) {ks : Keys} → Step ks (key_by_token token now ks).1
  sets_status : (id status : Bytes) {ks : Keys} → Step ks (set_key_status id status ks).1
  deletes : (id : Bytes) {ks : Keys} → Step ks (delete_key id ks).1
  purges : (now : ℤ) {ks : Keys} → Step ks (delete_expired_keys now ks).1
  touches : (id : Bytes) (now : ℤ) {ks : Keys} → Step ks (touch_key id now ks)
  adds_bytes : (id : Bytes) (n : ℤ) {ks : Keys} → Step ks (add_key_bytes id n ks)

-- The tables that calls lead to from an empty one.
pub data Reachable : Keys → Type 0 where
  empty : Reachable []
  after : {ks ks' : Keys} → Reachable ks → Step ks ks' → Reachable ks'

append-IsWellFormed :
    (ks : Keys) (k : Key) → IsWellFormed ks → clashes k ks ≡ false → IsWellFormed (ks ++ k ∷ [])
unfolding clashes
append-IsWellFormed [] k w h = (refl, tt)
append-IsWellFormed (j ∷ ks) k w h =
    let (here, there) = any-cons (λ i. bytes_eq k.id i.id || bytes_eq k.token i.token) j ks h in
    (
      any-append (λ i. bytes_eq j.id i.id || bytes_eq j.token i.token) ks (k ∷ [])
          ∙ rw (w.0, bytes_eq_comm j.id k.id, bytes_eq_comm j.token k.token, here) refl,
      append-IsWellFormed ks k w.1 there,
    )

-- An update that keeps ids and tokens.
clashes-update_rows :
    (j : Key) (id : Bytes) (f : Key → Key) (ks : Keys)
    → ((k : Key) → (f k).id ≡ k.id)
    → ((k : Key) → (f k).token ≡ k.token)
    → clashes j (update_rows id f ks) ≡ clashes j ks
unfolding clashes update_rows
clashes-update_rows j id f [] si st = refl
clashes-update_rows j id f (k ∷ ks) si st = elim (Bool-cases (bytes_eq k.id id)) [
  | inl hit ↦ rw (hit, si k, st k, clashes-update_rows j id f ks si st) refl
  | inr miss ↦ rw (miss, clashes-update_rows j id f ks si st) refl
]

clashes_same :
    (j k : Key) (ks : Keys) → j.id ≡ k.id → j.token ≡ k.token → clashes j ks ≡ clashes k ks
unfolding clashes
clashes_same j k ks ei et = rw (ei, et) refl

update_rows-IsWellFormed :
    (id : Bytes) (f : Key → Key) (ks : Keys)
    → ((k : Key) → (f k).id ≡ k.id)
    → ((k : Key) → (f k).token ≡ k.token)
    → IsWellFormed ks
    → IsWellFormed (update_rows id f ks)
unfolding update_rows
update_rows-IsWellFormed id f [] si st w = tt
update_rows-IsWellFormed id f (k ∷ ks) si st w =
    let rest = update_rows-IsWellFormed id f ks si st w.1 in
    let fresh = clashes-update_rows k id f ks si st ∙ w.0 in
    elim (Bool-cases (bytes_eq k.id id)) [
      | inl hit ↦ rw hit (clashes_same (f k) k (update_rows id f ks) (si k) (st k) ∙ fresh, rest)
      | inr miss ↦ rw miss (fresh, rest)
    ]

judge-IsWellFormed :
    (now : ℤ) (k : Key) (ks : Keys) → IsWellFormed ks → IsWellFormed (judge now k ks).1
judge-IsWellFormed now k ks w = elim (Bool-cases (is_expired now k)) [
  | inl late ↦ rw (judge_late now k ks late) (unfold delete_rows in keep_if-IsWellFormed _ ks w)
  | inr live ↦ rw (judge_live now k ks live) w
]

create_key-IsWellFormed :
    (id token label note : Bytes) (ttl at now : ℤ) (ks : Keys)
    → IsWellFormed ks
    → IsWellFormed (create_key id token label note ttl at now ks).1
unfolding create_key
create_key-IsWellFormed id token label note ttl at now ks w =
    elim (Bool-cases (clashes (new_key id token label note ttl at now) ks)) [
      | inl clash ↦ rw clash w
      | inr fresh ↦ rw fresh (append-IsWellFormed ks _ w fresh)
    ]

key_by_token-IsWellFormed :
    (token : Bytes) (now : ℤ) (ks : Keys)
    → IsWellFormed ks
    → IsWellFormed (key_by_token token now ks).1
key_by_token-IsWellFormed token now ks w = elim (Option-cases (row_by_token token ks)) [
  | inl missing ↦ rw (key_by_token-none token now ks missing) w
  | inr (k, h) ↦ rw (key_by_token-some token now ks k h) (judge-IsWellFormed now k ks w)
]

add_key_bytes-IsWellFormed :
    (id : Bytes) (n : ℤ) (ks : Keys) → IsWellFormed ks → IsWellFormed (add_key_bytes id n ks)
unfolding add_key_bytes
add_key_bytes-IsWellFormed id n ks w = elim (Bool-cases (leb_ℤ n (pos 0))) [
  | inl skip ↦ rw skip w
  | inr add ↦ rw add (update_rows-IsWellFormed id _ ks (λ k. refl) (λ k. refl) w)
]

-- No call makes two rows share an id or a token.
pub Step-IsWellFormed : {ks ks' : Keys} → Step ks ks' → IsWellFormed ks → IsWellFormed ks'
unfolding set_key_status delete_key delete_expired_keys touch_key delete_rows
Step-IsWellFormed (creates id token label note ttl at now) w =
    create_key-IsWellFormed id token label note ttl at now _ w
Step-IsWellFormed (resolves token now) w = key_by_token-IsWellFormed token now _ w
Step-IsWellFormed (sets_status id status) w =
    update_rows-IsWellFormed id _ _ (λ k. refl) (λ k. refl) w
Step-IsWellFormed (deletes id) w = keep_if-IsWellFormed _ _ w
Step-IsWellFormed (purges now) w = keep_if-IsWellFormed _ _ w
Step-IsWellFormed (touches id now) w = update_rows-IsWellFormed id _ _ (λ k. refl) (λ k. refl) w
Step-IsWellFormed (adds_bytes id n) w = add_key_bytes-IsWellFormed id n _ w

-- In every table that calls lead to from an empty one, no two rows share an id or a token.
pub Reachable-IsWellFormed : {ks : Keys} → Reachable ks → IsWellFormed ks
Reachable-IsWellFormed empty = tt
Reachable-IsWellFormed (after r s) = Step-IsWellFormed s (Reachable-IsWellFormed r)

active-live : (now : ℤ) (k : Key) → counts_as_active now k ≡ true → is_expired now k ≡ false
unfolding counts_as_active is_expired
active-live now k active = ground arith

active_paused : (now : ℤ) (k : Key) → counts_as_active now k ≡ true → paused k ≡ false
unfolding counts_as_active paused bytes_eq
active_paused now k active =
    rw ((bytes_eq_iff k.status (bytes "active")).0 (&&_true _ _ active).0) refl

-- A row that ActiveKeyCount counts is one that KeyByToken would resolve at the same time: where it
-- is the row of a token, the token resolves to it.
pub key_by_token-counts_as_active :
    (token : Bytes) (now : ℤ) (ks : Keys) (k : Key)
    → row_by_token token ks ≡ some k
    → counts_as_active now k ≡ true
    → (key_by_token token now ks).0 ≡ found k
key_by_token-counts_as_active token now ks k h active =
    rw
      (
        key_by_token-some token now ks k h,
        judge_live now k ks (active-live now k active),
        active_paused now k active,
      )
      refl
