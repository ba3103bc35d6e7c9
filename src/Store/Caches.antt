-- ===== src/Store/Caches.antt =====
-- store.go: the `meta_cache` and the `media_cache` tables.
use bitlab.Prelude.{
  ℕ, ◌≡◌, refl, ◌∙◌, [], Option, none, some, Bytes, bytes, bytes_eq, has_suffix, if◌then◌else◌,
  keep_if, length, not, take, ◌-◌, Bool-cases, inl, inr,
}
use bitlab.Prelude.Int.{ℤ, ◌+ℤ◌, ltb_ℤ}
use bitlab.Prelude.Assoc.{Assoc, lookup, insert, lookup-insert}
use bitlab.Store.Keys.{unix}

-- `meta_cache`: a value and its expiry.
abbrev pub MetaCache : Type 0
MetaCache = Assoc (Bytes × ℤ)

-- `CacheMeta`.
unfoldable pub cache_meta : Bytes → Bytes → ℤ → ℤ → MetaCache → MetaCache
unfolding insert unix ◌+ℤ◌
cache_meta key val ttl now m = insert key (val, unix (now +ℤ ttl)) m

-- The row that `GetCachedMeta` has read.
unfoldable pub unless_stale : ℤ → Bytes × ℤ → Option Bytes
unfolding unix
unless_stale now (v, exp) = if ltb_ℤ exp (unix now) then none else some v

-- `GetCachedMeta`.
unfoldable pub get_cached_meta : Bytes → ℤ → MetaCache → Option Bytes
unfolding lookup unless_stale
get_cached_meta key now m = elim (lookup key m) [ none ↦ none | some row ↦ unless_stale now row ]

-- A row of `media_cache`; `files` is its JSON text.
pub record Media : Type 0 where
  pub name : Bytes
  pub size : ℤ
  pub files : Bytes
  pub first_seen : ℤ
  pub last_used : ℤ

abbrev pub MediaCache : Type 0
MediaCache = Assoc Media

-- The row that `SaveMedia` leaves: `first_seen` of a row that is there stays.
unfoldable pub media_row : Bytes → ℤ → Bytes → ℤ → Option Media → Media
unfolding unix
media_row name size files now none = record {
  name = name;
  size = size;
  files = files;
  first_seen = unix now;
  last_used = unix now;
}
media_row name size files now (some old) = record old {
  name = name;
  size = size;
  files = files;
  last_used = unix now;
}

-- `SaveMedia`.
unfoldable pub save_media : Bytes → Bytes → ℤ → Bytes → ℤ → MediaCache → MediaCache
unfolding insert lookup media_row
save_media ih name size files now m = insert ih (media_row name size files now (lookup ih m)) m

-- `MediaCacheCount`.
unfoldable pub media_cache_count : MediaCache → ℕ
media_cache_count m = length m

-- `MediaName`.
unfoldable pub media_name : Bytes → MediaCache → Option Bytes
unfolding lookup
media_name ih m = elim (lookup ih m) [ none ↦ none | some row ↦ some row.name ]

-- `strings.TrimSuffix(name, ".part")`.
unfoldable pub trim_part : Bytes → Bytes
unfolding has_suffix
trim_part name = if has_suffix name (bytes ".part") then take (length name - 5) name else name

-- `ForgetMedia`.
unfoldable pub forget_media : Bytes → Bytes → MediaCache → MediaCache
unfolding trim_part bytes_eq
forget_media ih name m =
    let base = trim_part name in
    if not (bytes_eq ih [])
    then keep_if (λ row. not (bytes_eq row.0 ih)) m
    else (if bytes_eq base [] then m else keep_if (λ row. not (bytes_eq row.1.name base)) m)

get_cached_meta_row :
    (key : Bytes) (now : ℤ) (m : MetaCache) (row : Bytes × ℤ)
    → lookup key m ≡ some row
    → get_cached_meta key now m ≡ unless_stale now row
unfolding get_cached_meta
get_cached_meta_row key now m row h = rw (h, get_cached_meta) refl

get_cached_meta_same :
    (key : Bytes) (now : ℤ) (m m' : MetaCache)
    → lookup key m ≡ lookup key m'
    → get_cached_meta key now m ≡ get_cached_meta key now m'
unfolding get_cached_meta
get_cached_meta_same key now m m' h = rw (h, get_cached_meta) refl

-- After CacheMeta, GetCachedMeta answers the new value for its key until the seconds of its expiry
-- are over, and for every other key what it answered before.
pub get_cached_meta-cache_meta :
    (key other val : Bytes) (ttl now later : ℤ) (m : MetaCache)
    → get_cached_meta other later (cache_meta key val ttl now m) ≡ (
        if bytes_eq key other
        then (if ltb_ℤ (unix (now +ℤ ttl)) (unix later) then none else some val)
        else get_cached_meta other later m)
unfolding cache_meta unless_stale
get_cached_meta-cache_meta key other val ttl now later m = elim (Bool-cases (bytes_eq key other)) [
  | inl same ↦ rw same (
      get_cached_meta_row other later (insert key (val, unix (now +ℤ ttl)) m)
        (val, unix (now +ℤ ttl))
        (lookup-insert key other (val, unix (now +ℤ ttl)) m ∙ rw same refl))
  | inr apart ↦ rw apart (
      get_cached_meta_same other later (insert key (val, unix (now +ℤ ttl)) m) m
        (lookup-insert key other (val, unix (now +ℤ ttl)) m ∙ rw apart refl))
]
