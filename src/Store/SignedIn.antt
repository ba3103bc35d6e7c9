-- ===== src/Store/SignedIn.antt =====
-- GetSession after the other statements on the `sessions` table (store.go).
use bitlab.Prelude.{
  ◌≡◌, refl, ap, sym, ◌∙◌, true, false, inl, inr, [], ◌∷◌, ◌++◌, none, some, Bytes, bytes_eq,
  bytes_eq_iff, bytes_eq_refl, if◌then◌else◌, any, Bool-cases, Option-cases, some_inj,
}
use mathlib.Core.Path.{subst}
use mathlib.Core.Option.{none-ne-some}
use bitlab.Prelude.Int.{ℤ, ◌+ℤ◌, ltb_ℤ}
use bitlab.Store.Keys.{unix}
use bitlab.Store.Sessions.{
  Session, Sessions, session_by_id, drop_expired, new_session, create_session, delete_session,
  admit, get_session, delete_other_sessions,
}
use bitlab.Store.SessionRows.{
  is_over, session_by_id_sound, session_by_id-delete_session, get_session-none, get_session-some,
  admit_over, admit_live, session_by_id-delete_others, session_by_id_others_out,
  session_by_id_fresh, session_by_id_added,
}

-- GetSession answers only a session of the id asked for that is not past its expiry.
pub get_session_sound :
    (id : Bytes) (now : ℤ) (ss : Sessions) (s : Session)
    → (get_session id now ss).0 ≡ some s
    → (bytes_eq s.id id ≡ true) × (is_over now s ≡ false)
get_session_sound id now ss s h = elim (Option-cases (session_by_id id ss)) [
  | inl missing ↦
      absurd (none-ne-some s (sym (ap (λ r. r.0) (get_session-none id now ss missing)) ∙ h))
  | inr (j, row) ↦
      let from = ap (λ r. r.0) (get_session-some id now ss j row) in
      elim (Bool-cases (is_over now j)) [
        | inl over ↦
            absurd
              (none-ne-some s (sym (ap (λ r. r.0) (admit_over id now j ss over)) ∙ sym from ∙ h))
        | inr live ↦
            subst (λ z. (bytes_eq z.id id ≡ true) × (is_over now z ≡ false))
              (some_inj (sym (ap (λ r. r.0) (admit_live id now j ss live)) ∙ sym from ∙ h))
              (session_by_id_sound id ss j row, live)
      ]
]

-- An id that GetSession refuses once is refused by every later call on the table that it leaves.
pub get_session_stays_out :
    (id : Bytes) (now later : ℤ) (ss : Sessions)
    → (get_session id now ss).0 ≡ none
    → (get_session id later (get_session id now ss).1).0 ≡ none
get_session_stays_out id now later ss h = elim (Option-cases (session_by_id id ss)) [
  | inl missing ↦ rw (get_session-none id now ss missing, get_session-none id later ss missing) refl
  | inr (j, row) ↦ elim (Bool-cases (is_over now j)) [
    | inl over ↦
        rw
          (
            get_session-some id now ss j row,
            admit_over id now j ss over,
            get_session-none id later (delete_session id ss) (session_by_id-delete_session id ss),
          )
          refl
    | inr live ↦ absurd (
        none-ne-some j
          (sym h ∙ ap (λ r. r.0) (get_session-some id now ss j row ∙ admit_live id now j ss live)))
  ]
]

admit_same :
    (id : Bytes) (now : ℤ) (s : Session) (ss ss' : Sessions)
    → (admit id now s ss).0 ≡ (admit id now s ss').0
admit_same id now s ss ss' = elim (Bool-cases (is_over now s)) [
  | inl over ↦ rw (admit_over id now s ss over, admit_over id now s ss' over) refl
  | inr live ↦ rw (admit_live id now s ss live, admit_live id now s ss' live) refl
]

-- The answer depends only on the row of the id.
get_session_row :
    (id : Bytes) (now : ℤ) (ss ss' : Sessions)
    → session_by_id id ss ≡ session_by_id id ss'
    → (get_session id now ss).0 ≡ (get_session id now ss').0
get_session_row id now ss ss' h = elim (Option-cases (session_by_id id ss')) [
  | inl missing ↦
      rw (get_session-none id now ss (h ∙ missing), get_session-none id now ss' missing) refl
  | inr (j, row) ↦
      rw (get_session-some id now ss j (h ∙ row), get_session-some id now ss' j row)
        (admit_same id now j ss ss')
]

-- DeleteOtherSessions leaves the answer for the session kept, and every other id is refused.
pub get_session-delete_other_sessions :
    (id keep : Bytes) (now : ℤ) (ss : Sessions)
    → (get_session id now (delete_other_sessions keep ss)).0
      ≡ (if bytes_eq id keep then (get_session id now ss).0 else none)
get_session-delete_other_sessions id keep now ss = elim (Bool-cases (bytes_eq id keep)) [
  | inl same ↦
      rw (same, sym ((bytes_eq_iff id keep).0 same))
        (get_session_row id now (delete_other_sessions id ss) ss
          (session_by_id-delete_others id ss))
  | inr other ↦
      rw
        (
          other,
          get_session-none id now (delete_other_sessions keep ss)
              (session_by_id_others_out id keep ss other),
        )
        refl
]

-- The session of a browser that signs in.
abbrev pub signed_in : Bytes → Bytes → Bytes → Bytes → ℤ → ℤ → Session
signed_in id name ip ua ttl now = record {
  id = id;
  name = name;
  ip = ip;
  ua = ua;
  created_at = unix now;
  last_seen = unix now;
  expires_at = unix (now +ℤ ttl);
}

-- CreateSession under a new id, for a time that is not over at once: it answers with a session of
-- this id, name, address and browser, made and last seen now, that expires when that time has passed;
-- and GetSession answers with this session at every time that is not past that expiry.
pub get_session-create_session :
    (id name ip ua : Bytes) (ttl now later : ℤ) (ss : Sessions)
    → any (λ j. bytes_eq j.id id) ss ≡ false
    → ltb_ℤ (unix (now +ℤ ttl)) (unix now) ≡ false
    → ltb_ℤ (unix (now +ℤ ttl)) (unix later) ≡ false
    → ((create_session id name ip ua ttl now ss).0 ≡ some (signed_in id name ip ua ttl now))
      × ((get_session id later (create_session id name ip ua ttl now ss).1).0
          ≡ some (signed_in id name ip ua ttl now))
unfolding create_session new_session
get_session-create_session id name ip ua ttl now later ss fresh on live =
    let s = signed_in id name ip ua ttl now in
    let after = drop_expired now (ss ++ s ∷ []) in
    let row =
      session_by_id_added id now ss s (bytes_eq_refl id) on (session_by_id_fresh id ss fresh) in
    (
      rw fresh refl,
      rw (fresh, get_session-some id later after s row, admit_live id later s after live) refl,
    )
