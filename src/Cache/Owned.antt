-- ===== src/Cache/Owned.antt =====
-- cache.go: which entries belong to a torrent, said of the client and the tables alone.
use bitlab.Prelude.{
  ◌≡◌, refl, ap, ◌∙◌, Bool, true, false, not, ◌&&◌, ◌||◌, List, [], ◌∷◌, Option, none, some,
  is_some, inl, inr, Bytes, bytes_eq, if◌then◌else◌, any, keep_if, Option-cases, arith,
}
use bitlab.Prelude.Int.{pos, ltb_ℤ}
use bitlab.Prelude.Assoc.{lookup}
use bitlab.Store.Caches.{MediaCache, media_name}
use bitlab.Engine.State.{Activity, Torrent, Engine}
use bitlab.Cache.Plan.{CacheEntry}
use bitlab.Cache.Sweep.{Owners, owner_step, owners_from, cache_owners, peek_activity, has_name}

-- A torrent of this name that has its metadata.
abbrev pub has_metadata : Bytes → Torrent → Bool
has_metadata name t = bytes_eq name t.hash && is_some t.info

-- A torrent of this name that awaits its metadata, and has a row in `media_cache`.
abbrev pub is_awaited : MediaCache → Bytes → Torrent → Bool
is_awaited media name t =
    bytes_eq name t.hash && (not (is_some t.info) && is_some (lookup t.hash media))

-- Someone reads.
abbrev pub is_read : Option Activity → Bool
is_read none = false
is_read (some a) = ltb_ℤ (pos 0) a.readers

-- An entry that a sweep must leave: its torrent has its metadata and is read; or no torrent of its
-- name has its metadata, and one with a row in `media_cache` awaits it.
abbrev pub is_spared : Engine → MediaCache → CacheEntry → Bool
is_spared e media en =
    if any (has_metadata en.name) e.client
    then is_read (lookup en.name e.act)
    else any (is_awaited media en.name) e.client

abbrev pub disposable : Engine → MediaCache → List CacheEntry → List CacheEntry
disposable e media entries = keep_if (λ en. not (is_spared e media en)) entries

or_first : (a b c : Bool) → (a || (b || c)) ≡ ((if b then true else a) || c)
or_first a b c = ground arith

added : (a b : Bool) → (if a then true else b) ≡ ((a && true) || b)
added a b = ground arith

passed_by : (a b : Bool) → b ≡ ((a && false) || b)
passed_by a b = ground arith

or_false : (a : Bool) → (a || false) ≡ a
or_false a = ground arith

module _ (media : MediaCache) (name : Bytes) where
  -- The two sets after a step of the loop of `cacheOwners`.
  owner_step_sets :
      (t : Torrent) (o : Owners)
      → (has_name name (owner_step media t o).owned
          ≡ (has_metadata name t || has_name name o.owned))
        × (has_name name (owner_step media t o).pending
            ≡ (is_awaited media name t || has_name name o.pending))
  unfolding owner_step media_name
  owner_step_sets t o =
      let same = bytes_eq name t.hash in
      elim (Option-cases t.info) [
        | inr (info, there) ↦ (
          rw (there, owner_step) (added same (has_name name o.owned)),
          rw (there, owner_step) (passed_by same (has_name name o.pending)),
        )
        | inl awaits ↦ elim (Option-cases (lookup t.hash media)) [
          | inl unknown ↦ (
            rw (awaits, owner_step, unknown) (passed_by same (has_name name o.owned)),
            rw (awaits, owner_step, unknown) (passed_by same (has_name name o.pending)),
          )
          | inr (row, known) ↦ (
            rw (awaits, owner_step, known) (passed_by same (has_name name o.owned)),
            rw (awaits, owner_step, known) (added same (has_name name o.pending)),
          )
        ]
      ]

  owners_from_sets :
      (ts : List Torrent) (o : Owners)
      → (has_name name (owners_from media ts o).owned
          ≡ (any (has_metadata name) ts || has_name name o.owned))
        × (has_name name (owners_from media ts o).pending
            ≡ (any (is_awaited media name) ts || has_name name o.pending))
  unfolding owners_from
  owners_from_sets [] o = (refl, refl)
  owners_from_sets (t ∷ ts) o =
      let (owned, pending) = owners_from_sets ts (owner_step media t o) in
      let (owned', pending') = owner_step_sets t o in
      (
        owned
            ∙ ap (λ z. any (has_metadata name) ts || z) owned'
            ∙ or_first (any (has_metadata name) ts) (has_metadata name t) (has_name name o.owned),
        pending
            ∙ ap (λ z. any (is_awaited media name) ts || z) pending'
            ∙ or_first (any (is_awaited media name) ts) (is_awaited media name t)
                (has_name name o.pending),
      )

  -- The sets of `cacheOwners` have the names of the torrents that have their metadata, and of those
  -- that are awaited.
  pub cache_owners_sets :
      (ts : List Torrent)
      → (has_name name (cache_owners ts media).owned ≡ any (has_metadata name) ts)
        × (has_name name (cache_owners ts media).pending ≡ any (is_awaited media name) ts)
  unfolding cache_owners
  cache_owners_sets ts =
      let (owned, pending) = owners_from_sets ts (record { owned = []; pending = [] }) in
      (
        owned ∙ or_false (any (has_metadata name) ts),
        pending ∙ or_false (any (is_awaited media name) ts),
      )

-- `peekActivity` counts no reader of an entry that nobody reads.
pub is_read-peek_activity :
    (name : Bytes) (e : Engine)
    → is_read (lookup name e.act) ≡ ltb_ℤ (pos 0) (peek_activity name e.act).0
unfolding peek_activity
is_read-peek_activity name e = elim (Option-cases (lookup name e.act)) [
  | inl missing ↦ rw (missing, peek_activity) refl
  | inr (a, there) ↦ rw (there, peek_activity) refl
]
