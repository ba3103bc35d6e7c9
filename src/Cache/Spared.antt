-- ===== src/Cache/Spared.antt =====
-- cache.go: a sweep and the torrents that are read.
use bitlab.Prelude.{
  ◌≡◌, refl, ap, ◌∙◌, Bool, true, false, ◌||◌, not, List, [], ◌∷◌, some, inl, inr, Bytes, bytes_eq,
  bytes_eq_iff, All, Bool-cases, arith,
}
use bitlab.Prelude.Int.{ℤ, pos, ltb_ℤ, ◌≤ℤ◌}
use bitlab.Prelude.Members.{All-append, All-mono, All-mem}
use bitlab.Prelude.Assoc.{lookup, lookup-erase}
use bitlab.Engine.State.{Activity, Engine, find_torrent}
use bitlab.Engine.Client.{find_torrent-drop_torrent}
use bitlab.Cache.Plan.{CacheEntry, CacheUnit, CacheDecision}
use bitlab.Cache.Policy.{SortLaws, plan_cache-spares}
use bitlab.Cache.Sweep.{
  Owners, cache_owners, peek_activity, has_name, Survey, owned_unit, orphan_unit, survey_entry,
  survey_all, Swept, drop_unit, account_unit, sweep_unit, sweep_all,
}
use bitlab.Cache.Run.{
  SweepSettings, free_of, SweepState, no_survey, survey, sweep_plan, swept, sweep_cache,
}

-- The engine has the same torrent and the same entry for an infohash.
pub record SameAt (ih : Bytes) (e e' : Engine) : Type 0 where
  pub torrent : find_torrent ih e'.client ≡ find_torrent ih e.client
  pub entry : lookup ih e'.act ≡ lookup ih e.act

-- A unit of this infohash has a reader.
abbrev IsRead : Bytes → CacheUnit → Type 0
IsRead ih u = (not (bytes_eq u.infohash ih) || ltb_ℤ (pos 0) u.readers) ≡ true

module _ (ih : Bytes) (named : bytes_eq [] ih ≡ false) (o : Owners) (e : Engine) (a : Activity)
    (there : lookup ih e.act ≡ some a) (read : ltb_ℤ (pos 0) a.readers ≡ true) where
  owned_unit-IsRead : (en : CacheEntry) → IsRead ih (owned_unit e.act en)
  unfolding owned_unit peek_activity
  owned_unit-IsRead en = elim (Bool-cases (bytes_eq en.name ih)) [
    | inr other ↦ rw other refl
    | inl same ↦ rw same (
        rw (ap (λ z. lookup z e.act) ((bytes_eq_iff en.name ih).0 same) ∙ there, peek_activity)
          read)
  ]

  survey_entry-IsRead :
      (en : CacheEntry) (s : Survey)
      → All (IsRead ih) s.units
      → All (IsRead ih) (survey_entry o e.act en s).units
  unfolding survey_entry orphan_unit
  survey_entry-IsRead en s h = elim (Bool-cases (has_name en.name o.owned)) [
    | inl owned ↦ rw owned (All-append (IsRead ih) s.units _ h (owned_unit-IsRead en, tt))
    | inr free ↦ elim (Bool-cases (has_name en.name o.pending)) [
      | inl pending ↦ rw (free, pending) h
      | inr orphan ↦ rw (free, orphan) (All-append (IsRead ih) s.units _ h (rw named refl, tt))
    ]
  ]

  survey_all-IsRead :
      (ens : List CacheEntry) (s : Survey)
      → All (IsRead ih) s.units
      → All (IsRead ih) (survey_all o e.act ens s).units
  unfolding survey_all
  survey_all-IsRead [] s h = h
  survey_all-IsRead (en ∷ ens) s h =
      survey_all-IsRead ens (survey_entry o e.act en s) (survey_entry-IsRead en s h)

-- A decision about another infohash.
abbrev IsOther : Bytes → CacheDecision → Type 0
IsOther ih d = bytes_eq d.unit.infohash ih ≡ false

SameAt-trans : (ih : Bytes) (e f g : Engine) → SameAt ih e f → SameAt ih f g → SameAt ih e g
SameAt-trans ih e f g h k = record { torrent = k.torrent ∙ h.torrent; entry = k.entry ∙ h.entry }

module _ (ih : Bytes) where
  drop_unit-SameAt :
      (u : CacheUnit) (e : Engine) → bytes_eq u.infohash ih ≡ false → SameAt ih e (drop_unit u e)
  unfolding drop_unit
  drop_unit-SameAt u e other = elim (Bool-cases u.loaded) [
    | inl loaded ↦
        rw loaded (record {
          torrent = find_torrent-drop_torrent u.infohash ih e.client other;
          entry = refl;
        })
    | inr gone ↦ rw gone (record { torrent = refl; entry = refl })
  ]

  account_unit-SameAt :
      (u : CacheUnit) (s : Swept)
      → bytes_eq u.infohash ih ≡ false
      → SameAt ih s.engine (account_unit u s).engine
  unfolding account_unit
  account_unit-SameAt u s other = elim (Bool-cases (bytes_eq u.infohash [])) [
    | inl orphan ↦ rw orphan (record { torrent = refl; entry = refl })
    | inr owned ↦
        rw owned (record {
          torrent = refl;
          entry = lookup-erase u.infohash ih s.engine.act ∙ rw other refl;
        })
  ]

  module _ (remove_all : Bytes → Bool) where
    sweep_unit-SameAt :
        (d : CacheDecision) (s : Swept)
        → IsOther ih d
        → SameAt ih s.engine (sweep_unit remove_all d s).engine
    unfolding sweep_unit
    sweep_unit-SameAt d s other =
        let dropped = drop_unit-SameAt d.unit s.engine other in
        elim (Bool-cases (remove_all d.unit.path)) [
          | inr failed ↦ rw failed dropped
          | inl removed ↦ rw removed (
              SameAt-trans ih s.engine (drop_unit d.unit s.engine) _ dropped (
                account_unit-SameAt d.unit (record s { engine = drop_unit d.unit s.engine }) other))
        ]

    sweep_all-SameAt :
        (ds : List CacheDecision) (s : Swept)
        → All (IsOther ih) ds
        → SameAt ih s.engine (sweep_all remove_all ds s).engine
    unfolding sweep_all
    sweep_all-SameAt [] s h = record { torrent = refl; entry = refl }
    sweep_all-SameAt (d ∷ ds) s h =
        SameAt-trans ih s.engine (sweep_unit remove_all d s).engine _ (sweep_unit-SameAt d s h.0)
          (sweep_all-SameAt ds (sweep_unit remove_all d s) h.1)

-- With a sort by last use: a sweep leaves a torrent that someone reads in the client, and leaves its
-- entry as it is.
pub sweep_cache-SameAt :
    (sort : List CacheUnit → List CacheUnit) (remove_all : Bytes → Bool) (c : SweepSettings)
    (st : SweepState) (entries : List CacheEntry) (ih : Bytes) (a : Activity)
    → SortLaws sort
    → bytes_eq [] ih ≡ false
    → lookup ih st.engine.act ≡ some a
    → ltb_ℤ (pos 0) a.readers ≡ true
    → SameAt ih st.engine (sweep_cache sort remove_all c (some entries) st).engine
unfolding sweep_cache swept sweep_plan survey
sweep_cache-SameAt sort remove_all c st entries ih a laws named there read =
    let e = st.engine in
    let v = survey e st.media entries in
    let units =
      survey_all-IsRead ih named (cache_owners e.client st.media) e a there read entries no_survey
        tt in
    sweep_all-SameAt ih remove_all (sweep_plan sort remove_all c v) _ (
      All-mono _ (IsOther ih) _
        (λ d h.
          other d.unit.readers (bytes_eq d.unit.infohash ih)
            (All-mem (IsRead ih) (λ u. hlevel) d.unit v.units units h.0) h.1)
        (plan_cache-spares sort v.units v.used c.max_bytes c.reserved (free_of c.free) c.now
          c.grace_for c.retain_for laws))
  where
    other : (n : ℤ) (b : Bool) → (not b || ltb_ℤ (pos 0) n) ≡ true → n ≤ℤ pos 0 → b ≡ false
    other n b h idle = ground arith
