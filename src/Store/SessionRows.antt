-- ===== src/Store/SessionRows.antt =====
-- The rows of the `sessions` table under the statements of store.go.
use bitlab.Prelude.{
  ◌≡◌, refl, sym, ◌∙◌, Bool, true, false, inl, inr, [], ◌∷◌, ◌++◌, none, some, Bytes, bytes_eq,
  bytes_eq_iff, any, Bool-cases, some_inj, arith,
}
use mathlib.Core.Path.{subst}
use mathlib.Core.Option.{none-ne-some}
use bitlab.Prelude.Int.{ℤ, ltb_ℤ}
use bitlab.Store.Keys.{unix}
use bitlab.Store.Rows.{any-cons}
use bitlab.Store.Sessions.{
  Session, Sessions, session_by_id, drop_expired, delete_session, admit, get_session,
  delete_other_sessions,
}

-- Past its expiry, in whole seconds.
abbrev pub is_over : ℤ → Session → Bool
is_over now s = ltb_ℤ s.expires_at (unix now)

module _ (id : Bytes) (j : Session) (ss : Sessions) where
  pub session_by_id_hit : bytes_eq j.id id ≡ true → session_by_id id (j ∷ ss) ≡ some j
  unfolding session_by_id
  session_by_id_hit h = rw h refl

  pub session_by_id_miss :
      bytes_eq j.id id ≡ false → session_by_id id (j ∷ ss) ≡ session_by_id id ss
  unfolding session_by_id
  session_by_id_miss h = rw h refl

pub session_by_id_sound :
    (id : Bytes) (ss : Sessions) (s : Session)
    → session_by_id id ss ≡ some s
    → bytes_eq s.id id ≡ true
unfolding session_by_id
session_by_id_sound id [] s h = absurd (none-ne-some _ h)
session_by_id_sound id (j ∷ ss) s h = elim (Bool-cases (bytes_eq j.id id)) [
  | inl t ↦
      subst (λ z. bytes_eq z.id id ≡ true) (some_inj (sym (session_by_id_hit id j ss t) ∙ h)) t
  | inr f ↦ session_by_id_sound id ss s (sym (session_by_id_miss id j ss f) ∙ h)
]

pub session_by_id-delete_session :
    (id : Bytes) (ss : Sessions) → session_by_id id (delete_session id ss) ≡ none
unfolding session_by_id delete_session
session_by_id-delete_session id [] = refl
session_by_id-delete_session id (j ∷ ss) = elim (Bool-cases (bytes_eq j.id id)) [
  | inl t ↦ rw t (session_by_id-delete_session id ss)
  | inr f ↦ rw (f, f) (session_by_id-delete_session id ss)
]

pub get_session-none :
    (id : Bytes) (now : ℤ) (ss : Sessions)
    → session_by_id id ss ≡ none
    → get_session id now ss ≡ (none, ss)
unfolding get_session
get_session-none id now ss h = rw (h, get_session) refl

pub get_session-some :
    (id : Bytes) (now : ℤ) (ss : Sessions) (s : Session)
    → session_by_id id ss ≡ some s
    → get_session id now ss ≡ admit id now s ss
unfolding get_session
get_session-some id now ss s h = rw (h, get_session) refl

module _ (id : Bytes) (now : ℤ) (s : Session) (ss : Sessions) where
  pub admit_over : is_over now s ≡ true → admit id now s ss ≡ (none, delete_session id ss)
  unfolding admit
  admit_over h = rw h refl

  pub admit_live : is_over now s ≡ false → admit id now s ss ≡ (some s, ss)
  unfolding admit
  admit_live h = rw h refl

pub session_by_id-delete_others :
    (id : Bytes) (ss : Sessions)
    → session_by_id id (delete_other_sessions id ss) ≡ session_by_id id ss
unfolding session_by_id delete_other_sessions
session_by_id-delete_others id [] = refl
session_by_id-delete_others id (j ∷ ss) = elim (Bool-cases (bytes_eq j.id id)) [
  | inl t ↦ rw (t, t) refl
  | inr f ↦ rw f (session_by_id-delete_others id ss)
]

pub session_by_id_others_out :
    (id keep : Bytes) (ss : Sessions)
    → bytes_eq id keep ≡ false
    → session_by_id id (delete_other_sessions keep ss) ≡ none
unfolding session_by_id delete_other_sessions
session_by_id_others_out id keep [] h = refl
session_by_id_others_out id keep (j ∷ ss) h =
    let rest = session_by_id_others_out id keep ss h in
    elim (Bool-cases (bytes_eq j.id keep)) [
      | inl k ↦ rw (k, other_id j.id k) rest
      | inr n ↦ rw n rest
    ]
  where
    other_id : (i : Bytes) → bytes_eq i keep ≡ true → bytes_eq i id ≡ false
    other_id i k =
        ground (arith, k, h, bytes_eq_iff i keep, bytes_eq_iff i id, bytes_eq_iff id keep)

pub session_by_id_fresh :
    (id : Bytes) (ss : Sessions)
    → any (λ j. bytes_eq j.id id) ss ≡ false
    → session_by_id id ss ≡ none
unfolding session_by_id
session_by_id_fresh id [] h = refl
session_by_id_fresh id (j ∷ ss) h =
    let (here, there) = any-cons (λ i. bytes_eq i.id id) j ss h in
    rw here (session_by_id_fresh id ss there)

-- A row that is appended under a new id is found, while DELETE leaves it.
pub session_by_id_added :
    (id : Bytes) (now : ℤ) (ss : Sessions) (s : Session)
    → bytes_eq s.id id ≡ true
    → is_over now s ≡ false
    → session_by_id id ss ≡ none
    → session_by_id id (drop_expired now (ss ++ s ∷ [])) ≡ some s
unfolding session_by_id drop_expired
session_by_id_added id now [] s named live h = rw (live, named) refl
session_by_id_added id now (j ∷ ss) s named live h = elim (Bool-cases (bytes_eq j.id id)) [
  | inl t ↦ absurd (none-ne-some j (sym h ∙ session_by_id_hit id j ss t))
  | inr f ↦
      let rest =
        session_by_id_added id now ss s named live (sym (session_by_id_miss id j ss f) ∙ h) in
      elim (Bool-cases (is_over now j)) [ inl over ↦ rw over rest | inr on ↦ rw (on, f) rest ]
]
