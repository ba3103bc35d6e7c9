-- ===== src/Store/Tests.antt =====
-- The `keys` table of store.go on concrete rows.
use bitlab.Prelude.{◌*◌, ◌≡◌, refl, true, false, [], ◌∷◌, some, bytes, bytes_eq}
use bitlab.Prelude.Int.{ℤ, pos, ◌+ℤ◌}
use bitlab.Store.Keys.{
  Key, Keys, row_by_token, clashes, new_key, create_key, found, key_not_found, is_expired,
  key_by_token, unix, set_key_status, counts_as_active,
}
use bitlab.Store.Rows.{IsWellFormed}
use bitlab.Store.Resolve.{key_by_token-create_key, key_by_token-purges}
use bitlab.Store.History.{empty, after, creates, sets_status, Reachable-IsWellFormed}

-- A key of one hour, made at second 100, and one that does not expire.
abbrev hour_key : Key
hour_key = record {
  id = bytes "a1";
  label = bytes "tv";
  note = [];
  token = bytes "bit_x1";
  status = bytes "active";
  created_at = pos 100;
  last_used = pos 0;
  requests = pos 0;
  bytes_served = pos 0;
  expires_at = pos 3700;
}

abbrev lasting_key : Key
lasting_key = record hour_key { id = bytes "b2"; token = bytes "bit_y2"; expires_at = pos 0 }

abbrev table : Keys
table = hour_key ∷ lasting_key ∷ []

abbrev at_second : ℤ → ℤ
at_second (pos n) = pos (n * 1_000_000_000)
at_second t = t

table-IsWellFormed : IsWellFormed table
unfolding clashes bytes_eq
table-IsWellFormed = (refl, (refl, tt))

row_of_hour_key : row_by_token (bytes "bit_x1") table ≡ some hour_key
unfolding row_by_token bytes_eq
row_of_hour_key = refl

hour_key_late : is_expired (at_second (pos 3701)) hour_key ≡ true
unfolding is_expired unix
hour_key_late = refl

hour_key_live : is_expired (at_second (pos 3700)) hour_key ≡ false
unfolding is_expired unix
hour_key_live = refl

-- The row that CreateKey makes for the hour.
made_hour_key :
    (create_key
      (bytes "a1")
      (bytes "x1")
      (bytes "tv")
      []
      (at_second (pos 3600))
      (at_second (pos 100))
      (at_second (pos 100))
      []).0
    ≡ some hour_key
unfolding create_key new_key clashes unix bytes_eq ◌+ℤ◌
made_hour_key = refl

key_by_token-create_key_example :
    (key_by_token
      (bytes "bit_x1")
      (at_second (pos 3700))
      (create_key
        (bytes "a1")
        (bytes "x1")
        (bytes "tv")
        []
        (at_second (pos 3600))
        (at_second (pos 100))
        (at_second (pos 100))
        []).1).0
    ≡ found hour_key
key_by_token-create_key_example =
    key_by_token-create_key (bytes "a1") (bytes "x1") (bytes "tv") [] (at_second (pos 3600))
      (at_second (pos 100)) (at_second (pos 100)) [] (at_second (pos 3700)) hour_key made_hour_key
      hour_key_live

key_by_token-purges_example :
    (key_by_token
      (bytes "bit_x1")
      (pos 0)
      (key_by_token (bytes "bit_x1") (at_second (pos 3701)) table).1).0
    ≡ key_not_found
key_by_token-purges_example =
    key_by_token-purges (bytes "bit_x1") (at_second (pos 3701)) (pos 0) table hour_key
      table-IsWellFormed row_of_hour_key hour_key_late

Reachable-IsWellFormed_example :
    IsWellFormed
      (set_key_status
        (bytes "a1")
        (bytes "paused")
        (create_key (bytes "a1") (bytes "x1") [] [] (pos 0) (pos 0) (pos 0) []).1).1
Reachable-IsWellFormed_example = Reachable-IsWellFormed (
    after (after empty (creates (bytes "a1") (bytes "x1") [] [] (pos 0) (pos 0) (pos 0)))
      (sets_status (bytes "a1") (bytes "paused")))

hour_key_counts : counts_as_active (at_second (pos 3699)) hour_key ≡ true
unfolding counts_as_active unix bytes_eq
hour_key_counts = refl

-- In the second of its expiry a key resolves, but it is not counted as active.
hour_key_not_counted : counts_as_active (at_second (pos 3700)) hour_key ≡ false
unfolding counts_as_active unix bytes_eq
hour_key_not_counted = refl
