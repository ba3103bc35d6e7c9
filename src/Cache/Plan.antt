-- ===== src/Cache/Plan.antt =====
-- cache.go: the entries of the data directory and `planCache`, the deletion policy. Times are
-- nanoseconds. `sort.Slice` is not stable, so the sort is a parameter with its documented laws.
use bitlab.Prelude.{
  Bool, true, ◌&&◌, ◌||◌, not, List, [], ◌∷◌, ◌++◌, Bytes, bytes, bytes_eq, has_prefix,
  if◌then◌else◌, any,
}
use bitlab.Prelude.Int.{ℤ, pos, negsuc, ◌-ℤ◌, ltb_ℤ, leb_ℤ, add64, sub64}

-- `cacheEntry`.
pub record CacheEntry : Type 0 where
  pub name : Bytes
  pub path : Bytes
  pub size : ℤ
  pub mod_time : ℤ
  pub dir : Bool
  pub partial : Bool

-- `cacheUnit`, which embeds a `cacheEntry`.
pub record CacheUnit : Type 0 where
  pub entry : CacheEntry
  pub open entry use *
  pub infohash : Bytes
  pub loaded : Bool
  pub readers : ℤ
  pub last_use : ℤ

pub data Reason : Type 0 where
  retention budget reserve : Reason

-- `cacheDecision`.
pub record CacheDecision : Type 0 where
  pub unit : CacheUnit
  pub reason : Reason

-- The names that hold engine state.
abbrev state_names : List Bytes
state_names =
    bytes "bitlab.db"
    ∷ bytes "bitlab.db-wal"
    ∷ bytes "bitlab.db-shm"
    ∷ bytes "bitlab.db-journal"
    ∷ bytes "ADMIN_PASSWORD"
    ∷ bytes "lost+found"
    ∷ bytes "wireguard.conf"
    ∷ bytes "wg0.conf"
    ∷ []

-- `cacheSkip`.
unfoldable pub cache_skip : Bytes → Bool
unfolding bytes_eq has_prefix
cache_skip name =
    if any (bytes_eq name) state_names
    then true
    else bytes_eq name [] || has_prefix name (bytes ".")

-- `now.Sub(t)`: the difference, which saturates at the ends of `time.Duration`.
unfoldable pub since : ℤ → ℤ → ℤ
unfolding ◌-ℤ◌
since now t =
    let d = now -ℤ t in
    if ltb_ℤ (pos 9_223_372_036_854_775_807) d
    then pos 9_223_372_036_854_775_807
    else if ltb_ℤ d (negsuc 9_223_372_036_854_775_807)
    then negsuc 9_223_372_036_854_775_807
    else d

-- The closure `protected`.
unfoldable pub is_protected : ℤ → ℤ → CacheUnit → Bool
is_protected now grace u = ltb_ℤ (pos 0) u.readers || ltb_ℤ (since now u.last_use) grace

-- The variables of the first loop.
pub record Retained : Type 0 where
  pub plan : List CacheDecision
  pub taken : List Bytes
  pub freed : ℤ

-- The variables of the second loop.
pub record Pressed : Type 0 where
  pub plan : List CacheDecision
  pub used : ℤ
  pub free : ℤ

-- The parameters that both loops read.
pub record Limits : Type 0 where
  pub now : ℤ
  pub grace : ℤ
  pub retain : ℤ
  pub max_bytes : ℤ
  pub reserved : ℤ

module _ (l : Limits) where
  -- One turn of the retention loop.
  unfoldable pub retain_step : CacheUnit → Retained → Retained
  unfolding add64
  retain_step u s =
      if is_protected l.now l.grace u || leb_ℤ (since l.now u.last_use) l.retain
      then s
      else record {
        plan = s.plan ++ record { unit = u; reason = retention } ∷ [];
        taken = u.name ∷ s.taken;
        freed = add64 s.freed u.size;
      }

  unfoldable pub retain_loop : List CacheUnit → Retained → Retained
  retain_loop [] s = s
  retain_loop (u ∷ us) s = retain_loop us (retain_step u s)

  unfoldable pub over_budget : Pressed → Bool
  over_budget s = ltb_ℤ (pos 0) l.max_bytes && ltb_ℤ l.max_bytes s.used

  unfoldable pub under_reserve : Pressed → Bool
  under_reserve s = ltb_ℤ (pos 0) l.reserved && (leb_ℤ (pos 0) s.free && ltb_ℤ s.free l.reserved)

  -- The free space after `n` more bytes are freed; a failed probe stays negative.
  abbrev pub add_free : ℤ → ℤ → ℤ
  add_free free n = if leb_ℤ (pos 0) free then add64 free n else free

  -- The reason that a pressure eviction is logged with.
  unfoldable pub pressure_reason : Pressed → Reason
  unfolding over_budget under_reserve
  pressure_reason s = if not (over_budget s) && under_reserve s then reserve else budget

  -- The body of the pressure loop past its tests.
  unfoldable pub evict : CacheUnit → Pressed → Pressed
  unfolding add64 sub64 pressure_reason
  evict u s = record {
    plan = s.plan ++ record { unit = u; reason = pressure_reason s } ∷ [];
    used = sub64 s.used u.size;
    free = add_free s.free u.size;
  }

  -- The pressure loop, with its `continue` and its `break`.
  unfoldable pub pressure_loop : List Bytes → List CacheUnit → Pressed → Pressed
  pressure_loop taken [] s = s
  pressure_loop taken (u ∷ us) s =
      let skipped = pressure_loop taken us s in
      let evicted = pressure_loop taken us (evict u s) in
      if any (bytes_eq u.name) taken || is_protected l.now l.grace u
      then skipped
      else if not (over_budget s) && not (under_reserve s)
      then s
      else evicted

-- `if grace < 0 { grace = 0 }`.
unfoldable pub clamp_grace : ℤ → ℤ
clamp_grace grace = if ltb_ℤ grace (pos 0) then pos 0 else grace

module _ (sort : List CacheUnit → List CacheUnit) where
  -- What the first loop leaves.
  unfoldable pub retained : List CacheUnit → Limits → Retained
  retained units l =
      let start : Retained = record { plan = []; taken = []; freed = pos 0 } in
      if ltb_ℤ (pos 0) l.retain then retain_loop l (sort units) start else start

  -- What the second loop starts from.
  unfoldable pub before_pressure : List CacheUnit → ℤ → ℤ → Limits → Pressed
  unfolding retained add64 sub64
  before_pressure units used free l =
      let r = retained units l in
      record { plan = r.plan; used = sub64 used r.freed; free = add_free l free r.freed }

  -- The state in which the second loop ends.
  unfoldable pub after_pressure : List CacheUnit → ℤ → ℤ → Limits → Pressed
  unfolding retained before_pressure
  after_pressure units used free l =
      pressure_loop l (retained units l).taken (sort units) (before_pressure units used free l)

  -- `planCache`.
  unfoldable pub plan_cache : List CacheUnit → ℤ → ℤ → ℤ → ℤ → ℤ → ℤ → ℤ → List CacheDecision
  unfolding after_pressure clamp_grace
  plan_cache units used max_bytes reserved free now grace retain =
      (after_pressure units used free (record {
        now = now;
        grace = clamp_grace grace;
        retain = retain;
        max_bytes = max_bytes;
        reserved = reserved;
      })).plan
