-- ===== src/Store/Keys.antt =====
-- store.go: the `keys` table and its operations. The table is the list of its rows, and each
-- statement of the source is a function on it; `randHex` and `randToken` are arguments, and a
-- clock is read as a number of nanoseconds.
use bitlab.Prelude.{
  ◌==◌, ℕ, ◌/◌, Bool, false, ◌&&◌, ◌||◌, List, [], ◌∷◌, ◌++◌, Option, none, some, Bytes, bytes,
  bytes_eq, if◌then◌else◌, keep_if, length, not, any,
}
use bitlab.Prelude.Int.{ℤ, pos, negsuc, ◌+ℤ◌, ltb_ℤ, leb_ℤ}

-- `Key`.
pub record Key : Type 0 where
  pub id : Bytes
  pub label : Bytes
  pub note : Bytes
  pub token : Bytes
  pub status : Bytes
  pub created_at : ℤ
  pub last_used : ℤ
  pub requests : ℤ
  pub bytes_served : ℤ
  pub expires_at : ℤ

-- `Key.Paused`.
unfoldable pub paused : Key → Bool
paused k = bytes_eq k.status (bytes "paused")

-- `t.Unix()`: whole seconds, rounded down.
unfoldable pub unix : ℤ → ℤ
unix (pos n) = pos (n / 1_000_000_000)
unix (negsuc n) = negsuc (n / 1_000_000_000)

abbrev pub Keys : Type 0
Keys = List Key

-- `SELECT … WHERE token=?`: the first row, if there is one.
unfoldable pub row_by_token : Bytes → Keys → Option Key
row_by_token token [] = none
row_by_token token (k ∷ ks) = if bytes_eq k.token token then some k else row_by_token token ks

-- The uniqueness of `id` and `token` in the table's definition.
unfoldable pub clashes : Key → Keys → Bool
clashes k ks = any (λ j. bytes_eq k.id j.id || bytes_eq k.token j.token) ks

-- The row that `CreateKey` inserts.
unfoldable pub new_key : Bytes → Bytes → Bytes → Bytes → ℤ → ℤ → ℤ → Key
unfolding unix ◌+ℤ◌
new_key id token label note ttl at now = record {
  id = id;
  label = if bytes_eq label [] then bytes "unnamed" else label;
  note = note;
  token = bytes "bit_" ++ token;
  status = bytes "active";
  created_at = unix now;
  last_used = pos 0;
  requests = pos 0;
  bytes_served = pos 0;
  expires_at = if ltb_ℤ (pos 0) ttl then unix (at +ℤ ttl) else pos 0;
}

-- `CreateKey`: `id` and `token` are the random strings, and `at` and `now` its two clock readings.
unfoldable pub create_key : Bytes → Bytes → Bytes → Bytes → ℤ → ℤ → ℤ → Keys → Option Key × Keys
unfolding new_key clashes
create_key id token label note ttl at now ks =
    let k = new_key id token label note ttl at now in
    if clashes k ks then (none, ks) else (some k, ks ++ k ∷ [])

-- The answers of `KeyByToken`.
pub data Resolved : Type 0 where
  found : Key → Resolved
  key_not_found : Resolved
  key_paused : Key → Resolved
  key_expired : Key → Resolved

unfoldable pub delete_rows : Bytes → Keys → Keys
delete_rows id ks = keep_if (λ k. not (bytes_eq k.id id)) ks

-- `DeleteKey`; `true` stands for `nil`, `false` for `ErrKeyNotFound`.
unfoldable pub delete_key : Bytes → Keys → Bool × Keys
unfolding delete_rows
delete_key id ks = (any (λ k. bytes_eq k.id id) ks, delete_rows id ks)

-- `k.ExpiresAt > 0 && time.Now().Unix() > k.ExpiresAt`.
unfoldable pub is_expired : ℤ → Key → Bool
unfolding unix
is_expired now k = ltb_ℤ (pos 0) k.expires_at && ltb_ℤ k.expires_at (unix now)

-- The end of `KeyByToken`, for the row that it has read.
unfoldable pub judge : ℤ → Key → Keys → Resolved × Keys
unfolding is_expired delete_key paused
judge now k ks =
    if is_expired now k
    then (key_expired k, (delete_key k.id ks).1)
    else (if paused k then (key_paused k, ks) else (found k, ks))

-- `KeyByToken`.
unfoldable pub key_by_token : Bytes → ℤ → Keys → Resolved × Keys
unfolding row_by_token judge
key_by_token token now ks = elim (row_by_token token ks) [
  | none ↦ (key_not_found, ks)
  | some k ↦ judge now k ks
]

-- `UPDATE keys SET … WHERE id=?`.
unfoldable pub update_rows : Bytes → (Key → Key) → Keys → Keys
update_rows id f [] = []
update_rows id f (k ∷ ks) =
    if bytes_eq k.id id then f k ∷ update_rows id f ks else k ∷ update_rows id f ks

-- `SetKeyStatus`; `true` stands for `nil`, `false` for `ErrKeyNotFound`.
unfoldable pub set_key_status : Bytes → Bytes → Keys → Bool × Keys
unfolding update_rows
set_key_status id status ks =
    (any (λ k. bytes_eq k.id id) ks, update_rows id (λ k. record k { status = status }) ks)

-- `DeleteExpiredKeys`: the count of the deleted rows, and the table.
unfoldable pub delete_expired_keys : ℤ → Keys → ℕ × Keys
unfolding is_expired
delete_expired_keys now ks =
    (length (keep_if (is_expired now) ks), keep_if (λ k. not (is_expired now k)) ks)

-- `TouchKey`.
unfoldable pub touch_key : Bytes → ℤ → Keys → Keys
unfolding update_rows unix ◌+ℤ◌
touch_key id now ks =
    update_rows id (λ k. record k { last_used = unix now; requests = k.requests +ℤ pos 1 }) ks

-- `AddKeyBytes`.
unfoldable pub add_key_bytes : Bytes → ℤ → Keys → Keys
unfolding update_rows ◌+ℤ◌
add_key_bytes id n ks =
    if leb_ℤ n (pos 0)
    then ks
    else update_rows id (λ k. record k { bytes_served = k.bytes_served +ℤ n }) ks

abbrev is_zero : ℤ → Bool
is_zero (pos n) = n == 0
is_zero (negsuc n) = false

-- `status='active' AND (expires_at=0 OR expires_at>?)`.
unfoldable pub counts_as_active : ℤ → Key → Bool
unfolding unix
counts_as_active now k =
    bytes_eq k.status (bytes "active") && (is_zero k.expires_at || ltb_ℤ (unix now) k.expires_at)

-- `ActiveKeyCount`.
unfoldable pub active_key_count : ℤ → Keys → ℕ
unfolding counts_as_active
active_key_count now ks = length (keep_if (counts_as_active now) ks)
