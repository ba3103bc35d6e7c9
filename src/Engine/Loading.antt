-- ===== src/Engine/Loading.antt =====
-- `ensure` as a whole, by the steps that it takes (engine.go).
use mathlib.Core.Path.{subst}
use bitlab.Prelude.{
  ◌≤◌, ◌≡◌, inl, inr, refl, sym, ◌∙◌, Bool, true, false, ◌&&◌, List, [], ◌∷◌, Option, none, some,
  some_inj, Bytes, bytes_eq, bytes_eq_iff, length, arith, Bool-cases, Option-cases, length-append,
}
use bitlab.Prelude.Int.{ℤ, pos, ltb_ℤ, leb_ℤ, ◌≤ℤ◌, ◌<ℤ◌}
use bitlab.Prelude.Assoc.{lookup}
use bitlab.Util.Infohash.{valid_infohash, valid_infohash_sound}
use bitlab.Engine.State.{
  Activity, Torrent, Engine, find_torrent, lock_for, touch, set_adding, is_busy,
}
use bitlab.Engine.Evict.{evict_oldest, IsTable}
use bitlab.Engine.Rounds.{Dropped, Ended, Run}
use bitlab.Engine.Eviction.{evict_oldest-total, evict_oldest-Run}
use bitlab.Engine.Client.{length-drop_torrent-lt, find_torrent-drop_torrent, find_torrent-append}
use bitlab.Engine.Ensure.{
  Ensured, handle, failed, invalid_infohash, add_trackers, make_slot, magnet_uri, add_torrent,
  ensure_locked, ensure,
}
use bitlab.Engine.Steps.{
  IsRead, touch-IsRead, set_adding-IsRead, Same, touch-Same, set_adding-Same, lock_for-Same,
  lock_for-act, touch-IsTable, set_adding-IsTable,
}

-- What the search for a free slot leaves.
pub record Slot (e : Engine) (r : Bool × Engine) : Type 0 where
  pub capacity : r.1.max_torrents ≡ e.max_torrents
  pub room :
      r.0 ≡ true
      → pos 0 <ℤ e.max_torrents
      → pos (length e.client) ≤ℤ e.max_torrents
      → pos (length r.1.client) <ℤ e.max_torrents
  pub bound : length r.1.client ≤ length e.client
  pub spares :
      (k : Bytes) (t : Torrent)
      → IsRead k e
      → find_torrent k e.client ≡ some t
      → find_torrent k r.1.client ≡ some t

Slot-of_drop : (e e' : Engine) → Run e (true, e') → Dropped e e' → Slot e (true, e')
Slot-of_drop e e' run d = record {
  capacity = run.capacity;
  room = λ _ _ le.
      rw d.gone (omega (arith, length-drop_torrent-lt d.hash d.torrent e.client d.loaded));
  bound = rw d.gone (omega (arith, length-drop_torrent-lt d.hash d.torrent e.client d.loaded));
  spares = λ k t (a, known, read) found.
      rw d.gone (find_torrent-drop_torrent d.hash k e.client (not-read k a known read) ∙ found);
}
  where
    not-read :
        (k : Bytes) (a : Activity)
        → lookup k e.act ≡ some a
        → ltb_ℤ (pos 0) a.readers ≡ true
        → bytes_eq d.hash k ≡ false
    not-read k a known read =
        unfold is_busy in ground (arith, bytes_eq_iff d.hash k, d.known, d.idle)

Slot-of_Run : (e e' : Engine) (b : Bool) → Run e (b, e') → Ended e (b, e') → Slot e (b, e')
unfolding Ended
Slot-of_Run e e' true run d = Slot-of_drop e e' run d
Slot-of_Run e e' false run d = record {
  capacity = run.capacity;
  room = λ t _ _. absurd (ground arith);
  bound = rw d.0 (omega arith);
  spares = λ k t _ found. rw d.0 found;
}

-- The test for a full client.
abbrev is_full : Engine → Bool
is_full e = ltb_ℤ (pos 0) e.max_torrents && leb_ℤ e.max_torrents (pos (length e.client))

make_slot_full : (e : Engine) → is_full e ≡ true → make_slot e ≡ evict_oldest e
unfolding make_slot
make_slot_full e h = rw h

make_slot_free : (e : Engine) → is_full e ≡ false → make_slot e ≡ some (true, e)
unfolding make_slot
make_slot_free e h = rw h

make_slot-Slot :
    (e e' : Engine) (b : Bool) → IsTable e.act → make_slot e ≡ some (b, e') → Slot e (b, e')
make_slot-Slot e e' b h ran = elim (Bool-cases (is_full e)) [
  | inl full ↦
      let run = evict_oldest-Run e (b, e') h (sym (make_slot_full e full) ∙ ran) in
      Slot-of_Run e e' b run run.ended
  | inr free ↦ subst (Slot e) (some_inj (sym (make_slot_free e free) ∙ ran)) (record {
    capacity = refl;
    room = λ _ limited _. ground arith;
    bound = omega arith;
    spares = λ k t _ found. found;
  })
]

make_slot-total : (e : Engine) → IsTable e.act → (r : Bool × Engine) × (make_slot e ≡ some r)
make_slot-total e h = elim (Bool-cases (is_full e)) [
  | inl full ↦ rw (make_slot_full e full) (evict_oldest-total e h)
  | inr free ↦ ((true, e), make_slot_free e free)
]

not_empty : (ih : Bytes) → valid_infohash ih ≡ true → bytes_eq ih [] ≡ false
unfolding bytes_eq
not_empty [] h = absurd (omega (arith, (valid_infohash_sound [] h).0))
not_empty (c ∷ cs) h = refl

module _ (query_escape : Bytes → Bytes) (add_magnet : Bytes → Option Torrent) where
  -- What a call of `ensure` leaves.
  record Kept (e e' : Engine) : Type 0 where
    capacity :
        pos 0 <ℤ e.max_torrents
        → pos (length e.client) ≤ℤ e.max_torrents
        → pos (length e'.client) ≤ℤ e.max_torrents
    spares :
        (k : Bytes) (t : Torrent)
        → IsRead k e
        → find_torrent k e.client ≡ some t
        → find_torrent k e'.client ≡ some t

  Kept-of_Same : {e e' : Engine} → Same e e' → Kept e e'
  Kept-of_Same s = record {
    capacity = λ _ le. rw s.client le;
    spares = λ k t _ found. rw s.client found;
  }

  add_torrent-Kept :
      (ih name : Bytes) (trs : List Bytes) (e e' : Engine) (b : Bool)
      → Slot e (b, e')
      → Kept e (add_torrent query_escape add_magnet ih name trs (b, e')).1
  unfolding add_torrent
  add_torrent-Kept ih name trs e e' false s = record {
    capacity = λ limited le. rw (set_adding-Same ih false e').client (omega (arith, s.bound));
    spares = λ k t read found. rw (set_adding-Same ih false e').client (s.spares k t read found);
  }
  add_torrent-Kept ih name trs e e' true s =
      elim (Option-cases (add_magnet (magnet_uri query_escape ih name trs))) [
        | inl refused ↦
            rw (refused, add_torrent)
              (record {
                capacity =
                    λ limited le. rw (set_adding-Same ih false e').client (omega (arith, s.bound));
                spares = λ k t read found.
                    rw (set_adding-Same ih false e').client (s.spares k t read found);
              })
        | inr (t, added) ↦
            rw (added, add_torrent)
              (record {
                capacity = λ limited le.
                    rw (set_adding-Same ih false _).client
                      (omega (arith, s.room refl limited le, length-append e'.client (t ∷ [])));
                spares = λ k u read found.
                    rw (set_adding-Same ih false _).client
                      (find_torrent-append k u e'.client (t ∷ []) (s.spares k u read found));
              })
      ]

  Kept-trans :
      {a b c : Engine} → Same a b → ((k : Bytes) → IsRead k a → IsRead k b) → Kept b c → Kept a c
  Kept-trans s reads kept = record {
    capacity = λ limited le.
        rw (← s.capacity) (kept.capacity (rw s.capacity limited) (rw (s.capacity, s.client) le));
    spares = λ k t read found. kept.spares k t (reads k read) (rw s.client found);
  }

  module _ (ih name : Bytes) (extra : List Bytes) where
    ensure_locked-add :
        (e : Engine) (slot : Bool × Engine)
        → find_torrent ih e.client ≡ none
        → make_slot (set_adding ih true e) ≡ some slot
        → ensure_locked query_escape add_magnet ih name extra e
          ≡ some (add_torrent query_escape add_magnet ih name (add_trackers e.trackers extra) slot)
    unfolding ensure_locked
    ensure_locked-add e slot absent ran = rw (absent, ensure_locked) (rw (ran, ensure_locked))

    ensure_locked-Kept_run :
        (e : Engine)
        → bytes_eq ih [] ≡ false
        → IsTable e.act
        → (r : Ensured × Engine) × (ensure_locked query_escape add_magnet ih name extra e ≡ some r)
          × Kept e r.1
    unfolding ensure_locked
    ensure_locked-Kept_run e ne h = elim (Option-cases (find_torrent ih e.client)) [
      | inr (t, there) ↦ (
        (handle t, e),
        rw (there, ensure_locked),
        Kept-of_Same (record { client = refl; capacity = refl }),
      )
      | inl absent ↦
          let ((b, e'), ran) =
            make_slot-total (set_adding ih true e) (set_adding-IsTable ih true e ne h) in
          let slot =
            make_slot-Slot (set_adding ih true e) e' b (set_adding-IsTable ih true e ne h) ran in
          (
            add_torrent query_escape add_magnet ih name (add_trackers e.trackers extra) (b, e'),
            ensure_locked-add e (b, e') absent ran,
            Kept-trans (set_adding-Same ih true e) (λ k. set_adding-IsRead ih k true e)
                (add_torrent-Kept ih name _ _ e' b slot),
          )
    ]

    ensure-Kept_run :
        (now : ℤ) (e : Engine)
        → IsTable e.act
        → (r : Ensured × Engine) × (ensure query_escape add_magnet ih name extra now e ≡ some r)
          × Kept e r.1
    unfolding ensure
    ensure-Kept_run now e h = elim (Bool-cases (valid_infohash ih)) [
      | inr bad ↦ (
        (failed invalid_infohash, e),
        rw bad,
        Kept-of_Same (record { client = refl; capacity = refl }),
      )
      | inl good ↦
          let e' = touch ih name now e in
          let same = touch-Same ih name now e in
          let ne = not_empty ih good in
          elim (Option-cases (find_torrent ih e'.client)) [
            | inr (t, there) ↦ ((handle t, e'), rw (good, there), Kept-of_Same same)
            | inl absent ↦
                let (r, ran, kept) =
                  ensure_locked-Kept_run (lock_for ih e') ne
                    (rw (lock_for-act ih e') (touch-IsTable ih name now e ne h)) in
                (
                  r,
                  rw (good, absent) ran,
                  Kept-trans same (λ k. touch-IsRead ih name k now e)
                      (Kept-trans (lock_for-Same ih e') (λ k read. rw (lock_for-act ih e') read)
                        kept),
                )
          ]
    ]

    module _ (now : ℤ) (e : Engine) (table : IsTable e.act) where
      -- On a table of activity, `ensure` ends with a torrent or with an error.
      pub ensure-total :
          (r : Ensured × Engine) × (ensure query_escape add_magnet ih name extra now e ≡ some r)
      ensure-total = let (r, ran, kept) = ensure-Kept_run now e table in (r, ran)

      ensure-Kept :
          (r : Ensured × Engine)
          → ensure query_escape add_magnet ih name extra now e ≡ some r
          → Kept e r.1
      ensure-Kept r ran =
          let (r', ran', kept) = ensure-Kept_run now e table in
          subst (λ (x : Ensured × Engine). Kept e x.1) (some_inj (sym ran' ∙ ran)) kept

      -- With a positive maximum, a call that begins with at most that many torrents loaded ends
      -- with at most that many, however it ends.
      pub ensure-capacity :
          (r : Ensured × Engine)
          → ensure query_escape add_magnet ih name extra now e ≡ some r
          → pos 0 <ℤ e.max_torrents
          → pos (length e.client) ≤ℤ e.max_torrents
          → pos (length r.1.client) ≤ℤ e.max_torrents
      ensure-capacity r ran = (ensure-Kept r ran).capacity

      -- A torrent that is loaded and has a reader is still loaded when the call ends.
      pub ensure-spares :
          (r : Ensured × Engine) (k : Bytes) (t : Torrent)
          → ensure query_escape add_magnet ih name extra now e ≡ some r
          → IsRead k e
          → find_torrent k e.client ≡ some t
          → find_torrent k r.1.client ≡ some t
      ensure-spares r k t ran = (ensure-Kept r ran).spares k t
