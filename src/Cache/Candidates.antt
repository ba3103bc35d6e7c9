-- ===== src/Cache/Candidates.antt =====
-- The pressure loop of `planCache` as a walk along the entries that may go, the least recently
-- used first, that stops as soon as the limits are kept.
use bitlab.Prelude.{
  ◌≡◌, refl, ap, ◌⊎◌, inl, inr, Bool, true, false, ◌||◌, not, List, [], ◌∷◌, ◌++◌, Bytes, bytes_eq,
  if◌then◌else◌, any, keep_if, Bool-cases, arith,
}
use bitlab.Cache.Plan.{
  CacheUnit, CacheDecision, Limits, Pressed, is_protected, over_budget, under_reserve,
  pressure_reason, evict, pressure_loop,
}

module _ (l : Limits) where
  -- One of the limits is broken.
  abbrev pub is_short : Pressed → Bool
  is_short s = over_budget l s || under_reserve l s

  -- The entries that the second loop may take.
  abbrev pub is_candidate : List Bytes → CacheUnit → Bool
  is_candidate taken u = not (any (bytes_eq u.name) taken || is_protected l.now l.grace u)

  abbrev pub candidates : List Bytes → List CacheUnit → List CacheUnit
  candidates taken us = keep_if (is_candidate taken) us

  abbrev pub evict_all : List CacheUnit → Pressed → Pressed
  evict_all [] s = s
  evict_all (u ∷ us) s = evict_all us (evict l u s)

  -- The loop over the candidates alone.
  drain : List CacheUnit → Pressed → Pressed
  drain [] s = s
  drain (u ∷ us) s = let more = drain us (evict l u s) in if is_short s then more else s

  drain_kept : (us : List CacheUnit) (s : Pressed) → is_short s ≡ false → drain us s ≡ s
  unfolding drain
  drain_kept [] s h = refl
  drain_kept (u ∷ us) s h = rw h

  pressure_loop-drain :
      (taken : List Bytes) (us : List CacheUnit) (s : Pressed)
      → pressure_loop l taken us s ≡ drain (candidates taken us) s
  unfolding pressure_loop drain
  pressure_loop-drain taken [] s = refl
  pressure_loop-drain taken (u ∷ us) s = ground (
    arith,
    pressure_loop-drain taken us s,
    pressure_loop-drain taken us (evict l u s),
    drain_kept (candidates taken us) s,
  )

  -- Each entry of the list is evicted while a limit is broken.
  abbrev pub AllNeeded : List CacheUnit → Pressed → Type 0
  AllNeeded [] s = Unit
  AllNeeded (u ∷ us) s = (is_short s ≡ true) × AllNeeded us (evict l u s)

  -- What the walk takes, what it leaves, and why it stops there.
  pub record Cut (all : List CacheUnit) (s t : Pressed) : Type 0 where
    pub gone : List CacheUnit
    pub left : List CacheUnit
    pub split : all ≡ gone ++ left
    pub result : t ≡ evict_all gone s
    pub needed : AllNeeded gone s
    pub stops : (left ≡ []) ⊎ (is_short t ≡ false)

  drain-Cut : (us : List CacheUnit) (s : Pressed) → Cut us s (drain us s)
  unfolding drain
  drain-Cut [] s = record {
    gone = [];
    left = [];
    split = refl;
    result = refl;
    needed = tt;
    stops = inl refl;
  }
  drain-Cut (u ∷ us) s = elim (Bool-cases (is_short s)) [
    | inl broken ↦
        let c = drain-Cut us (evict l u s) in
        rw broken (record {
          gone = u ∷ c.gone;
          left = c.left;
          split = ap (◌∷◌ u) c.split;
          result = c.result;
          needed = (broken, c.needed);
          stops = c.stops;
        })
    | inr kept ↦ rw kept (record {
      gone = [];
      left = u ∷ us;
      split = refl;
      result = refl;
      needed = tt;
      stops = inr kept;
    })
  ]

  pub pressure_loop-Cut :
      (taken : List Bytes) (us : List CacheUnit) (s : Pressed)
      → Cut (candidates taken us) s (pressure_loop l taken us s)
  pressure_loop-Cut taken us s =
      rw (pressure_loop-drain taken us s) (drain-Cut (candidates taken us) s)

  -- The plan grows by one decision for each entry taken.
  abbrev pub decisions : List CacheUnit → Pressed → List CacheDecision
  decisions [] s = []
  decisions (u ∷ us) s =
      record { unit = u; reason = pressure_reason l s } ∷ decisions us (evict l u s)
