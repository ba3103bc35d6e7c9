-- ===== src/Store/Resolve.antt =====
-- KeyByToken after each of the other statements on the `keys` table (store.go).
use bitlab.Prelude.{
  ◌≡◌, refl, ap, ◌∙◌, sym, Bool, true, false, inl, inr, [], ◌∷◌, ◌++◌, none, some, Bytes, bytes_eq,
  bytes_eq_refl, if◌then◌else◌, keep_if, not, Bool-cases, Option-cases, some_inj,
}
use bitlab.Prelude.Int.{ℤ}
use mathlib.Core.Path.{subst}
use mathlib.Core.Option.{none-ne-some}
use bitlab.Store.Keys.{
  Key, Keys, row_by_token, clashes, new_key, create_key, Resolved, found, key_not_found, key_paused,
  key_expired, delete_key, delete_rows, is_expired, key_by_token, update_rows, set_key_status,
  delete_expired_keys, paused, judge,
}
use bitlab.Store.Rows.{
  IsWellFormed, row_by_token_hit, row_by_token-append, row_by_token-update_rows, clashes_token,
  row_by_token-keep_if, row_by_token-keep_if-some, row_by_token-delete_rows,
}

pub key_by_token-some :
    (token : Bytes) (now : ℤ) (ks : Keys) (k : Key)
    → row_by_token token ks ≡ some k
    → key_by_token token now ks ≡ judge now k ks
unfolding key_by_token
key_by_token-some token now ks k h = rw (h, key_by_token) refl

pub key_by_token-none :
    (token : Bytes) (now : ℤ) (ks : Keys)
    → row_by_token token ks ≡ none
    → key_by_token token now ks ≡ (key_not_found, ks)
unfolding key_by_token
key_by_token-none token now ks h = rw (h, key_by_token) refl

-- What a row answers that is not expired.
abbrev pub live_answer : Key → Resolved
live_answer k = if paused k then key_paused k else found k

pub judge_live :
    (now : ℤ) (k : Key) (ks : Keys)
    → is_expired now k ≡ false
    → judge now k ks ≡ (live_answer k, ks)
unfolding judge
judge_live now k ks h = elim (Bool-cases (paused k)) [
  | inl p ↦ rw (h, p) refl
  | inr p ↦ rw (h, p) refl
]

pub judge_late :
    (now : ℤ) (k : Key) (ks : Keys)
    → is_expired now k ≡ true
    → judge now k ks ≡ (key_expired k, delete_rows k.id ks)
unfolding judge delete_key
judge_late now k ks h = rw h refl

-- The rest of the table has no part in an answer.
judge_same : (now : ℤ) (k : Key) (ks ks' : Keys) → (judge now k ks).0 ≡ (judge now k ks').0
judge_same now k ks ks' = elim (Bool-cases (is_expired now k)) [
  | inl late ↦ rw (judge_late now k ks late, judge_late now k ks' late) refl
  | inr on ↦ rw (judge_live now k ks on, judge_live now k ks' on) refl
]

-- In a table without clashes: a token whose row KeyByToken finds expired is not known to any later
-- call.
pub key_by_token-purges :
    (token : Bytes) (now later : ℤ) (ks : Keys) (k : Key)
    → IsWellFormed ks
    → row_by_token token ks ≡ some k
    → is_expired now k ≡ true
    → (key_by_token token later (key_by_token token now ks).1).0 ≡ key_not_found
key_by_token-purges token now later ks k w h late =
    rw
      (
        key_by_token-some token now ks k h,
        judge_late now k ks late,
        key_by_token-none token later (delete_rows k.id ks)
            (row_by_token-delete_rows token ks k w h),
      )
      refl

-- What an answer becomes when the expired rows are purged.
abbrev pub purged : Resolved → Resolved
purged (found k) = found k
purged key_not_found = key_not_found
purged (key_paused k) = key_paused k
purged (key_expired k) = key_not_found

purged-live_answer : (k : Key) → live_answer k ≡ purged (live_answer k)
purged-live_answer k = elim (Bool-cases (paused k)) [ inl p ↦ rw p refl | inr p ↦ rw p refl ]

-- In a table without clashes, DeleteExpiredKeys changes the answer for a token at that time only
-- from "expired" to "not found".
pub key_by_token-delete_expired_keys :
    (token : Bytes) (now : ℤ) (ks : Keys)
    → IsWellFormed ks
    → (key_by_token token now (delete_expired_keys now ks).1).0
      ≡ purged (key_by_token token now ks).0
unfolding delete_expired_keys
key_by_token-delete_expired_keys token now ks w = elim (Option-cases (row_by_token token ks)) [
  | inl missing ↦
      rw
        (
          key_by_token-none token now ks missing,
          key_by_token-none token now (keep_if live ks)
              (row_by_token-keep_if token live ks missing),
        )
        refl
  | inr (k, h) ↦
      let kept = row_by_token-keep_if-some token live ks k w h in
      elim (Bool-cases (is_expired now k)) [
        | inl late ↦
            rw
              (
                key_by_token-none token now (keep_if live ks) (kept ∙ rw late refl),
                key_by_token-some token now ks k h,
                judge_late now k ks late,
              )
              refl
        | inr on ↦
            rw
              (
                key_by_token-some token now (keep_if live ks) k (kept ∙ rw on refl),
                key_by_token-some token now ks k h,
                judge_live now k ks on,
                judge_live now k (keep_if live ks) on,
              )
              (purged-live_answer k)
      ]
]
  where
    live : Key → Bool
    live k = not (is_expired now k)

module _ (id token label note : Bytes) (ttl at now : ℤ) (ks : Keys) where
  abbrev row_made : Key
  row_made = new_key id token label note ttl at now

  create_key_clash :
      clashes row_made ks ≡ true → create_key id token label note ttl at now ks ≡ (none, ks)
  unfolding create_key
  create_key_clash h = rw h refl

  create_key_fresh :
      clashes row_made ks ≡ false
      → create_key id token label note ttl at now ks ≡ (some row_made, ks ++ row_made ∷ [])
  unfolding create_key
  create_key_fresh h = rw h refl

  row_by_token_made :
      clashes row_made ks ≡ false
      → row_by_token row_made.token (ks ++ row_made ∷ []) ≡ some row_made
  row_by_token_made h =
      row_by_token-append row_made.token ks (row_made ∷ []) (clashes_token row_made ks h)
      ∙ row_by_token_hit row_made.token row_made [] (bytes_eq_refl row_made.token)

  live_answer_made : live_answer row_made ≡ found row_made
  unfolding paused new_key bytes_eq
  live_answer_made = refl

  -- Where CreateKey answers a key, the key's token resolves to that key at every time at which the
  -- key is not expired.
  pub key_by_token-create_key :
      (later : ℤ) (k : Key)
      → (create_key id token label note ttl at now ks).0 ≡ some k
      → is_expired later k ≡ false
      → (key_by_token k.token later (create_key id token label note ttl at now ks).1).0 ≡ found k
  key_by_token-create_key later k made on = elim (Bool-cases (clashes row_made ks)) [
    | inl clash ↦ absurd (none-ne-some k (sym (ap (λ r. r.0) (create_key_clash clash)) ∙ made))
    | inr fresh ↦ rw (create_key_fresh fresh) (
        subst
          (λ z.
            is_expired later z ≡ false
            → (key_by_token z.token later (ks ++ row_made ∷ [])).0 ≡ found z)
          (some_inj (sym (ap (λ r. r.0) (create_key_fresh fresh)) ∙ made))
          (λ live.
            rw
              (
                key_by_token-some row_made.token later (ks ++ row_made ∷ []) row_made
                    (row_by_token_made fresh),
                judge_live later row_made (ks ++ row_made ∷ []) live,
              )
              live_answer_made)
          on)
  ]

-- SetKeyStatus decides the answer for a token whose row is not expired: with "paused" the token is
-- refused, with any other status it resolves to the updated row.
pub key_by_token-set_key_status :
    (token status : Bytes) (now : ℤ) (ks : Keys) (k : Key)
    → row_by_token token ks ≡ some k
    → is_expired now k ≡ false
    → (key_by_token token now (set_key_status k.id status ks).1).0
      ≡ live_answer (record k { status = status })
unfolding set_key_status is_expired
key_by_token-set_key_status token status now ks k h on =
    let row =
      row_by_token-update_rows token k.id (λ j. record j { status = status }) ks k (λ j. refl) h in
    let ks' = update_rows k.id (λ j. record j { status = status }) ks in
    let k' = record k { status = status } in
    rw
      (
        key_by_token-some token now ks' k' (row ∙ rw (bytes_eq_refl k.id) refl),
        judge_live now k' ks' on,
      )
      refl

-- In a table without clashes, DeleteKey refuses the token of the row that it deletes from then on,
-- and leaves the answer for every other row.
pub key_by_token-delete_key :
    (token id : Bytes) (now : ℤ) (ks : Keys) (k : Key)
    → IsWellFormed ks
    → row_by_token token ks ≡ some k
    → (key_by_token token now (delete_key id ks).1).0
      ≡ (if bytes_eq k.id id then key_not_found else (key_by_token token now ks).0)
unfolding delete_key
key_by_token-delete_key token id now ks k w h = elim (Bool-cases (bytes_eq k.id id)) [
  | inl hit ↦ rw (hit, key_by_token-none token now (delete_rows id ks) (kept ∙ rw hit refl)) refl
  | inr miss ↦
      rw
        (
          miss,
          key_by_token-some token now (delete_rows id ks) k (kept ∙ rw miss refl),
          key_by_token-some token now ks k h,
        )
        (judge_same now k (delete_rows id ks) ks)
]
  where
    kept :
        row_by_token token (delete_rows id ks) ≡ (if not (bytes_eq k.id id) then some k else none)
    kept =
        unfold delete_rows in row_by_token-keep_if-some token (λ j. not (bytes_eq j.id id)) ks k w h
