-- ===== src/Engine/Reaped.antt =====
-- engine.go: what a pass of `reapIdle` drops and what it keeps.
use bitlab.Prelude.{
  ◌≡◌, inl, inr, refl, sym, ◌∙◌, Bool, true, false, List, [], ◌∷◌, none, some, Bytes, bytes_eq,
  if◌then◌else◌, Bool-cases, Option-cases, arith,
}
use mathlib.Core.Path.{subst}
use mathlib.Core.Option.{none-ne-some}
use bitlab.Prelude.Int.{ℤ}
use bitlab.Prelude.Assoc.{lookup, lookup-insert, lookup-erase}
use bitlab.Engine.State.{
  Activity, Torrent, Engine, find_torrent, drop_torrent, activity, new_activity, put_activity,
}
use bitlab.Engine.Client.{find_torrent-drop_torrent}
use bitlab.Engine.Reap.{needs_warning, measure, warn, is_idle, drop_idle, reap_one, reap_all}

-- No two torrents of the client share an infohash.
abbrev pub IsDistinct : List Torrent → Type 0
IsDistinct [] = Unit
IsDistinct (t ∷ ts) = (find_torrent t.hash ts ≡ none) × IsDistinct ts

-- What the pass leaves alone of an entry.
pub record SameUse (a b : Activity) : Type 0 where
  pub readers : b.readers ≡ a.readers
  pub adding : b.adding ≡ a.adding
  pub last_access : b.last_access ≡ a.last_access
  pub label : b.label ≡ a.label

abbrev pub IsDropped : Bytes → Engine → Type 0
IsDropped ih e = (find_torrent ih e.client ≡ none) × (lookup ih e.act ≡ none)

abbrev pub IsKept : Bytes → Torrent → Activity → Engine → Type 0
IsKept ih t a e =
    (find_torrent ih e.client ≡ some t)
    × ((b : Activity) × ((lookup ih e.act ≡ some b) × SameUse a b))

pub find_torrent-dropped :
    (ih : Bytes) (ts : List Torrent) → find_torrent ih (drop_torrent ih ts) ≡ none
unfolding find_torrent drop_torrent
find_torrent-dropped ih [] = refl
find_torrent-dropped ih (t ∷ ts) = ground (arith, find_torrent-dropped ih ts)

-- The entry as the pass leaves it, where it leaves one.
abbrev pub after : ℤ → Torrent → Activity → Activity
after now t a = warn now t (measure now t a)

pub after-SameUse : (now : ℤ) (t : Torrent) (a : Activity) → SameUse a (after now t a)
unfolding warn measure
after-SameUse now t a = elim (Bool-cases (needs_warning now t (measure now t a))) [
  | inl first ↦
      rw first (record { readers = refl; adding = refl; last_access = refl; label = refl })
  | inr quiet ↦
      rw quiet (record { readers = refl; adding = refl; last_access = refl; label = refl })
]

-- The first part of the body: the entry, made where there is none, and updated.
unfoldable pub noted : ℤ → Torrent → Engine → Engine
unfolding activity
noted now t e = let (a, e1) = activity t.hash now e in put_activity t.hash (after now t a) e1

-- Where the entry is there, only it changes.
pub noted_there :
    (now : ℤ) (t : Torrent) (e : Engine) (a : Activity)
    → lookup t.hash e.act ≡ some a
    → (activity t.hash now e ≡ (a, e)) × (noted now t e ≡ put_activity t.hash (after now t a) e)
unfolding noted activity
noted_there now t e a h = (rw (h, activity) refl, rw (h, activity) refl)

noted_new :
    (now : ℤ) (t : Torrent) (e : Engine)
    → lookup t.hash e.act ≡ none
    → noted now t e
      ≡ put_activity t.hash
          (after now t (new_activity now))
          (put_activity t.hash (new_activity now) e)
unfolding noted activity
noted_new now t e h = rw (h, activity) refl

pub record SameAt (ih : Bytes) (e e' : Engine) : Type 0 where
  pub torrent : find_torrent ih e'.client ≡ find_torrent ih e.client
  pub entry : lookup ih e'.act ≡ lookup ih e.act
  pub timeout : e'.idle_timeout ≡ e.idle_timeout

put-SameAt :
    (k ih : Bytes) (a : Activity) (e : Engine)
    → bytes_eq k ih ≡ false
    → SameAt ih e (put_activity k a e)
put-SameAt k ih a e other = record {
  torrent = refl;
  entry = lookup-insert k ih a e.act ∙ rw other refl;
  timeout = refl;
}

drop-SameAt : (k ih : Bytes) (e : Engine) → bytes_eq k ih ≡ false → SameAt ih e (drop_idle k e)
unfolding drop_idle
drop-SameAt k ih e other = record {
  torrent = find_torrent-drop_torrent k ih e.client other;
  entry = lookup-erase k ih e.act ∙ rw other refl;
  timeout = refl;
}

pub SameAt-trans : (ih : Bytes) (e f g : Engine) → SameAt ih e f → SameAt ih f g → SameAt ih e g
SameAt-trans ih e f g h k = record {
  torrent = k.torrent ∙ h.torrent;
  entry = k.entry ∙ h.entry;
  timeout = k.timeout ∙ h.timeout;
}

noted-SameAt :
    (now : ℤ) (t : Torrent) (e : Engine) (ih : Bytes)
    → bytes_eq t.hash ih ≡ false
    → SameAt ih e (noted now t e)
noted-SameAt now t e ih other = elim (Option-cases (lookup t.hash e.act)) [
  | inr (a, there) ↦
      subst (SameAt ih e) (sym ((noted_there now t e a there).1))
        (put-SameAt t.hash ih (after now t a) e other)
  | inl missing ↦ subst (SameAt ih e) (sym (noted_new now t e missing)) (
      SameAt-trans ih e (put_activity t.hash (new_activity now) e) _
        (put-SameAt t.hash ih (new_activity now) e other)
        (put-SameAt t.hash ih (after now t (new_activity now))
          (put_activity t.hash (new_activity now) e) other))
]

pub reap_one_split :
    (now : ℤ) (t : Torrent) (e : Engine) (idle : Bool)
    → is_idle e.idle_timeout now (activity t.hash now e).0 ≡ idle
    → reap_one now t e ≡ (if idle then drop_idle t.hash (noted now t e) else noted now t e)
unfolding reap_one noted
reap_one_split now t e idle h = rw h refl

pub reap_one-SameAt :
    (now : ℤ) (t : Torrent) (e : Engine) (ih : Bytes)
    → bytes_eq t.hash ih ≡ false
    → SameAt ih e (reap_one now t e)
reap_one-SameAt now t e ih other =
    let same = noted-SameAt now t e ih other in
    elim (Bool-cases (is_idle e.idle_timeout now (activity t.hash now e).0)) [
      | inl idle ↦
          subst (SameAt ih e) (sym (reap_one_split now t e true idle))
            (SameAt-trans ih e (noted now t e) _ same (drop-SameAt t.hash ih (noted now t e) other))
      | inr used ↦ subst (SameAt ih e) (sym (reap_one_split now t e false used)) same
    ]

-- A pass over torrents of other infohashes.
pub reap_all-SameAt :
    (now : ℤ) (ts : List Torrent) (e : Engine) (ih : Bytes)
    → find_torrent ih ts ≡ none
    → SameAt ih e (reap_all now ts e)
unfolding reap_all find_torrent
reap_all-SameAt now [] e ih h = record { torrent = refl; entry = refl; timeout = refl }
reap_all-SameAt now (t ∷ ts) e ih h = elim (Bool-cases (bytes_eq t.hash ih)) [
  | inl same ↦ absurd (none-ne-some t (sym (rw same at h)))
  | inr other ↦ SameAt-trans ih e (reap_one now t e) _ (reap_one-SameAt now t e ih other) (
      reap_all-SameAt now ts (reap_one now t e) ih
        (subst (λ b. (if b then some t else find_torrent ih ts) ≡ none) other h))
]
