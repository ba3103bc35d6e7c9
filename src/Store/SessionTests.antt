-- ===== src/Store/SessionTests.antt =====
-- The `sessions` table and the caches of store.go on concrete rows.
use bitlab.Prelude.{◌≡◌, refl, true, false, [], ◌∷◌, none, some, bytes, bytes_eq, any}
use bitlab.Prelude.Int.{ℤ, pos, ◌+ℤ◌}
use bitlab.Store.Keys.{unix}
use bitlab.Store.Sessions.{
  Session, Sessions, session_by_id, create_session, get_session, admit, delete_session,
}
use bitlab.Store.SessionRows.{is_over}
use bitlab.Prelude.{has_suffix, has_prefix}
use bitlab.Store.Caches.{media_cache_count, forget_media, save_media, trim_part, media_row}
use bitlab.Store.SignedIn.{
  get_session_sound, get_session_stays_out, get_session-create_session, signed_in,
}

abbrev laptop : Session
laptop = record {
  id = bytes "aa";
  name = bytes "Firefox";
  ip = [];
  ua = [];
  created_at = pos 0;
  last_seen = pos 0;
  expires_at = pos 60;
}

abbrev phone : Session
phone = record laptop { id = bytes "bb"; expires_at = pos 90 }

abbrev table : Sessions
table = laptop ∷ phone ∷ []

abbrev second_60 : ℤ
second_60 = pos 60_000_000_000

abbrev second_61 : ℤ
second_61 = pos 61_000_000_000

laptop_answers : (get_session (bytes "aa") second_60 table).0 ≡ some laptop
unfolding get_session session_by_id admit unix bytes_eq
laptop_answers = refl

laptop_over : (get_session (bytes "aa") second_61 table).0 ≡ none
unfolding get_session session_by_id admit unix bytes_eq delete_session
laptop_over = refl

get_session_sound_example :
    (bytes_eq (bytes "aa") (bytes "aa") ≡ true) × (is_over second_60 laptop ≡ false)
get_session_sound_example = get_session_sound (bytes "aa") second_60 table laptop laptop_answers

get_session_stays_out_example :
    (get_session (bytes "aa") second_60 (get_session (bytes "aa") second_61 table).1).0 ≡ none
get_session_stays_out_example =
    get_session_stays_out (bytes "aa") second_61 second_60 table laptop_over

new_id : any (λ j. bytes_eq j.id (bytes "cc")) table ≡ false
unfolding bytes_eq
new_id = refl

abbrev one_hour : ℤ
one_hour = pos 3_600_000_000_000

get_session-create_session_example :
    ((create_session (bytes "cc") [] [] [] one_hour second_60 table).0
      ≡ some (signed_in (bytes "cc") [] [] [] one_hour second_60))
    × ((get_session
          (bytes "cc")
          second_61
          (create_session (bytes "cc") [] [] [] one_hour second_60 table).1).0
        ≡ some (signed_in (bytes "cc") [] [] [] one_hour second_60))
unfolding unix ◌+ℤ◌
get_session-create_session_example =
    get_session-create_session (bytes "cc") [] [] [] one_hour second_60 second_61 table new_id refl
      refl

-- A row that is stored under a file's name is forgotten by that name, with or without `.part`.
forgets_by_name :
    media_cache_count (
      forget_media []
        (bytes "film.part")
        (save_media (bytes "aa") (bytes "film") (pos 1) [] (pos 0) []))
    ≡ 0
unfolding media_cache_count forget_media save_media trim_part media_row has_suffix has_prefix
    bytes_eq
forgets_by_name = refl
