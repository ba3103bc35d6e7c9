-- ===== src/Engine/Steps.antt =====
-- What the engine's own steps on its tables leave of the client, of the readers and of the table
-- (engine.go).
use bitlab.Prelude.{
  ◌≡◌, inl, inr, ◌∙◌, Bool, true, false, [], some, Bytes, bytes_eq, bytes_eq_iff, if◌then◌else◌,
  arith, Bool-cases, Option-cases,
}
use bitlab.Prelude.Int.{ℤ, pos, ltb_ℤ}
use bitlab.Prelude.Assoc.{lookup, lookup-insert, lookup-insert_self}
use bitlab.Engine.State.{Activity, Engine, new_activity, lock_for, activity, touch, set_adding}
use bitlab.Engine.Evict.{IsTable}
use bitlab.Engine.Table.{insert-IsTable}

-- An infohash with a reader.
abbrev pub IsRead : Bytes → Engine → Type 0
IsRead k e = (a : Activity) × (lookup k e.act ≡ some a) × (ltb_ℤ (pos 0) a.readers ≡ true)

activity_known :
    (ih : Bytes) (now : ℤ) (e : Engine) {a : Activity}
    → lookup ih e.act ≡ some a
    → activity ih now e ≡ (a, e)
unfolding activity
activity_known ih now e known = rw (known, activity)

lookup-activity :
    (ih k : Bytes) (now : ℤ) (e : Engine)
    → bytes_eq ih k ≡ false
    → lookup k (activity ih now e).1.act ≡ lookup k e.act
unfolding activity
lookup-activity ih k now e other = ground (arith, lookup-insert ih k (new_activity now) e.act)

pub touch-IsRead :
    (ih label k : Bytes) (now : ℤ) (e : Engine) → IsRead k e → IsRead k (touch ih label now e)
unfolding touch
touch-IsRead ih label k now e (a, known, read) = elim (Bool-cases (bytes_eq ih k)) [
  | inl same ↦
      let here = activity_known k now e known in
      rw ((bytes_eq_iff ih k).0 same, here)
        (
          record a { label = if bytes_eq label [] then a.label else label; last_access = now },
          lookup-insert_self k _ e.act,
          read,
        )
  | inr other ↦ (
    a,
    lookup-insert ih k _ (activity ih now e).1.act
        ∙ ground (arith, lookup-activity ih k now e other),
    read,
  )
]

pub set_adding-IsRead :
    (ih k : Bytes) (b : Bool) (e : Engine) → IsRead k e → IsRead k (set_adding ih b e)
unfolding set_adding
set_adding-IsRead ih k b e (a, known, read) = elim (Bool-cases (bytes_eq ih k)) [
  | inl same ↦
      rw ((bytes_eq_iff ih k).0 same)
        (record a { adding = b }, rw (known, set_adding) (lookup-insert_self k _ e.act), read)
  | inr other ↦ elim (Option-cases (lookup ih e.act)) [
    | inl absent ↦ (a, ground arith, read)
    | inr (c, there) ↦ (a, ground (arith, lookup-insert ih k (record c { adding = b }) e.act), read)
  ]
]

-- What the engine's own steps leave of the client and of the limit.
pub record Same (e e' : Engine) : Type 0 where
  pub client : e'.client ≡ e.client
  pub capacity : e'.max_torrents ≡ e.max_torrents

pub touch-Same : (ih label : Bytes) (now : ℤ) (e : Engine) → Same e (touch ih label now e)
unfolding touch activity
touch-Same ih label now e = ground arith

pub set_adding-Same : (ih : Bytes) (b : Bool) (e : Engine) → Same e (set_adding ih b e)
unfolding set_adding
set_adding-Same ih b e = ground arith

pub lock_for-Same : (ih : Bytes) (e : Engine) → Same e (lock_for ih e)
unfolding lock_for
lock_for-Same ih e = ground arith

activity-IsTable :
    (ih : Bytes) (now : ℤ) (e : Engine)
    → bytes_eq ih [] ≡ false
    → IsTable e.act
    → IsTable (activity ih now e).1.act
unfolding activity
activity-IsTable ih now e h t = elim (Option-cases (lookup ih e.act)) [
  | inl absent ↦ rw (absent, activity) (insert-IsTable ih _ _ h t)
  | inr (a, known) ↦ rw (known, activity) t
]

pub touch-IsTable :
    (ih label : Bytes) (now : ℤ) (e : Engine)
    → bytes_eq ih [] ≡ false
    → IsTable e.act
    → IsTable (touch ih label now e).act
unfolding touch
touch-IsTable ih label now e h t = insert-IsTable ih _ _ h (activity-IsTable ih now e h t)

pub set_adding-IsTable :
    (ih : Bytes) (b : Bool) (e : Engine)
    → bytes_eq ih [] ≡ false
    → IsTable e.act
    → IsTable (set_adding ih b e).act
unfolding set_adding
set_adding-IsTable ih b e h t = elim (Option-cases (lookup ih e.act)) [
  | inl absent ↦ rw (absent, set_adding) t
  | inr (a, known) ↦ rw (known, set_adding) (insert-IsTable ih _ _ h t)
]

pub lock_for-act : (ih : Bytes) (e : Engine) → (lock_for ih e).act ≡ e.act
unfolding lock_for
lock_for-act ih e = ground arith
