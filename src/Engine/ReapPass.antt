-- ===== src/Engine/ReapPass.antt =====
-- engine.go: the outcome of `reapIdle` for each torrent.
use bitlab.Prelude.{
  ◌≡◌, refl, sym, ap, ◌∙◌, Bool, true, false, List, [], ◌∷◌, none, some, inl, inr, Bytes, bytes_eq,
  bytes_eq_iff, if◌then◌else◌, Bool-cases, some_inj,
}
use mathlib.Core.Path.{subst}
use bitlab.Prelude.Int.{ℤ}
use bitlab.Prelude.Assoc.{lookup, lookup-erase, lookup-insert_self}
use bitlab.Engine.State.{Activity, Torrent, Engine, find_torrent}
use bitlab.Engine.Reap.{is_idle, drop_idle, reap_one, reap_all, reap_idle}
use bitlab.Engine.Reaped.{
  IsDistinct, IsDropped, IsKept, find_torrent-dropped, after, after-SameUse, noted, noted_there,
  SameAt, reap_one_split, reap_one-SameAt, reap_all-SameAt,
}

-- A torrent that is idle is dropped; every other is kept.
abbrev pub Outcome : Bool → Bytes → Torrent → Activity → Engine → Type 0
Outcome true ih t a e = IsDropped ih e
Outcome false ih t a e = IsKept ih t a e

Outcome-SameAt :
    (idle : Bool) (ih : Bytes) (t : Torrent) (a : Activity) (e f : Engine)
    → SameAt ih e f
    → Outcome idle ih t a e
    → Outcome idle ih t a f
Outcome-SameAt true ih t a e f same h = (same.torrent ∙ h.0, same.entry ∙ h.1)
Outcome-SameAt false ih t a e f same h =
    (same.torrent ∙ h.0, (h.1.0, (same.entry ∙ h.1.1.0, h.1.1.1)))

noted-IsKept :
    (now : ℤ) (t : Torrent) (a : Activity) (e : Engine)
    → find_torrent t.hash e.client ≡ some t
    → lookup t.hash e.act ≡ some a
    → IsKept t.hash t a (noted now t e)
noted-IsKept now t a e loaded there =
    subst (IsKept t.hash t a) (sym ((noted_there now t e a there).1)) (
      loaded,
      (after now t a, (lookup-insert_self t.hash (after now t a) e.act, after-SameUse now t a)),
    )

drop_idle-IsDropped : (ih : Bytes) (e : Engine) → IsDropped ih (drop_idle ih e)
unfolding drop_idle
drop_idle-IsDropped ih e = (
  find_torrent-dropped ih e.client,
  lookup-erase ih ih e.act ∙ rw ((bytes_eq_iff ih ih).1 refl) refl,
)

reap_one-Outcome :
    (now : ℤ) (t : Torrent) (a : Activity) (e : Engine)
    → find_torrent t.hash e.client ≡ some t
    → lookup t.hash e.act ≡ some a
    → Outcome (is_idle e.idle_timeout now a) t.hash t a (reap_one now t e)
reap_one-Outcome now t a e loaded there = go (is_idle e.idle_timeout now a) refl
  where
    branch :
        (idle : Bool)
        → Outcome idle t.hash t a (if idle then drop_idle t.hash (noted now t e) else noted now t e)
    branch true = drop_idle-IsDropped t.hash (noted now t e)
    branch false = noted-IsKept now t a e loaded there

    go :
        (idle : Bool)
        → is_idle e.idle_timeout now a ≡ idle
        → Outcome idle t.hash t a (reap_one now t e)
    go idle h =
        subst (Outcome idle t.hash t a)
          (sym (
            reap_one_split now t e idle
              (ap (λ z. is_idle e.idle_timeout now z.0) ((noted_there now t e a there).0) ∙ h)))
          (branch idle)

reap_all-Outcome :
    (now : ℤ) (ts : List Torrent) (e : Engine) (ih : Bytes) (t : Torrent) (a : Activity)
    → IsDistinct ts
    → find_torrent ih ts ≡ some t
    → find_torrent ih e.client ≡ some t
    → lookup ih e.act ≡ some a
    → Outcome (is_idle e.idle_timeout now a) ih t a (reap_all now ts e)
unfolding reap_all find_torrent
reap_all-Outcome now [] e ih t a distinct h loaded there = absurd (none_some h)
  where
    none_some : ¬ (none ≡ some t)
    none_some h = cc
reap_all-Outcome now (t0 ∷ ts) e ih t a distinct h loaded there =
    elim (Bool-cases (bytes_eq t0.hash ih)) [
      | inl same ↦
          here ((bytes_eq_iff t0.hash ih).0 same)
            (some_inj (subst (λ b. (if b then some t0 else find_torrent ih ts) ≡ some t) same h))
      | inr other ↦
          let moved = reap_one-SameAt now t0 e ih other in
          subst (λ z. Outcome (is_idle z now a) ih t a (reap_all now ts (reap_one now t0 e)))
            moved.timeout
            (reap_all-Outcome now ts (reap_one now t0 e) ih t a distinct.1
              (subst (λ b. (if b then some t0 else find_torrent ih ts) ≡ some t) other h)
              (moved.torrent ∙ loaded) (moved.entry ∙ there))
    ]
  where
    here :
        t0.hash ≡ ih
        → t0 ≡ t
        → Outcome (is_idle e.idle_timeout now a) ih t a (reap_all now ts (reap_one now t0 e))
    here at is_t =
        Outcome-SameAt (is_idle e.idle_timeout now a) ih t a (reap_one now t0 e) _
          (reap_all-SameAt now ts (reap_one now t0 e) ih
            (subst (λ z. find_torrent z ts ≡ none) at distinct.0))
          (subst (λ z. Outcome (is_idle e.idle_timeout now a) z t a (reap_one now t0 e)) at
            (subst (λ z. Outcome (is_idle e.idle_timeout now a) t0.hash z a (reap_one now t0 e))
              is_t
              (reap_one-Outcome now t0 a e
                (subst (λ z. find_torrent z e.client ≡ some t0) (sym at)
                  (loaded ∙ ap some (sym is_t)))
                (subst (λ z. lookup z e.act ≡ some a) (sym at) there))))

-- With a client whose torrents have different infohashes, for a torrent that has an entry: a pass
-- of reapIdle drops it, with its entry, where nobody reads it and it was last used longer ago than
-- the timeout; otherwise it keeps the torrent, with the readers, the add in progress, the last use
-- and the label of its entry.
pub reap_idle-Outcome :
    (now : ℤ) (e : Engine) (ih : Bytes) (t : Torrent) (a : Activity)
    → IsDistinct e.client
    → find_torrent ih e.client ≡ some t
    → lookup ih e.act ≡ some a
    → Outcome (is_idle e.idle_timeout now a) ih t a (reap_idle now e)
unfolding reap_idle
reap_idle-Outcome now e ih t a distinct loaded there =
    reap_all-Outcome now e.client e ih t a distinct loaded loaded there
