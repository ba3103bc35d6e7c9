-- ===== src/Cache/Media.antt =====
-- cache.go: the entries that `scanCache` returns.
use bitlab.Prelude.{
  ◌≡◌, false, List, [], ◌∷◌, map, inl, inr, Bytes, bytes_eq, any, All, Bool-cases, Option-cases,
}
use mathlib.Core.List.{Perm}
use bitlab.Prelude.Members.{All-map, All-perm}
use bitlab.Prelude.Assoc.{Assoc, insert}
use bitlab.Cache.Plan.{CacheEntry, cache_skip}
use bitlab.Cache.Scan.{Visit, Agg, top_of, Walk, visit_path, visit, walk_all, entry_of, scan_cache}

-- The names of the map are no engine state.
abbrev IsMedia : Assoc Agg → Type 0
IsMedia m = All (λ (row : Bytes × Agg). cache_skip row.0 ≡ false) m

insert-IsMedia :
    (name : Bytes) (a : Agg) (m : Assoc Agg)
    → cache_skip name ≡ false
    → IsMedia m
    → IsMedia (insert name a m)
unfolding insert
insert-IsMedia name a [] e h = (e, tt)
insert-IsMedia name a ((other, b) ∷ m) e h = elim (Bool-cases (bytes_eq other name)) [
  | inl same ↦ rw same (h.0, h.1)
  | inr new ↦ rw new (h.0, insert-IsMedia name a m e h.1)
]

visit_path-IsMedia :
    (v : Visit) (rel : Bytes) (w : Walk) → IsMedia w.entries → IsMedia (visit_path v rel w).entries
unfolding visit_path
visit_path-IsMedia v rel w h = elim (Bool-cases (cache_skip (top_of rel))) [
  | inr media ↦ rw media (insert-IsMedia (top_of rel) _ w.entries media h)
  | inl state ↦ elim (Bool-cases v.is_dir) [
    | inl dir ↦ rw (state, dir) h
    | inr file ↦ rw (state, file) h
  ]
]

visit-IsMedia : (v : Visit) (w : Walk) → IsMedia w.entries → IsMedia (visit v w).entries
unfolding visit
visit-IsMedia v w h = elim (Bool-cases v.failed) [
  | inl failed ↦ rw failed h
  | inr fine ↦ elim (Option-cases v.rel) [
    | inl root ↦ rw (fine, root) h
    | inr (rel, below) ↦ elim (Bool-cases (any (bytes_eq (top_of rel)) w.skipped)) [
      | inl hidden ↦ rw (fine, below, hidden) h
      | inr seen ↦ rw (fine, below, seen) (visit_path-IsMedia v rel w h)
    ]
  ]
]

walk_all-IsMedia :
    (vs : List Visit) (w : Walk) → IsMedia w.entries → IsMedia (walk_all vs w).entries
unfolding walk_all
walk_all-IsMedia [] w h = h
walk_all-IsMedia (v ∷ vs) w h = walk_all-IsMedia vs (visit v w) (visit-IsMedia v w h)

-- With a sort that permutes: no entry of the scan is one of the engine's own files, has a name that
-- begins with a dot, or has an empty name.
pub scan_cache_media :
    (join : Bytes → Bytes) (sort : List CacheEntry → List CacheEntry) (visits : List Visit)
    → ((es : List CacheEntry) → Perm (sort es) es)
    → All (λ (en : CacheEntry). cache_skip en.name ≡ false) (scan_cache join sort visits)
unfolding scan_cache entry_of
scan_cache_media join sort visits perm =
    let w = walk_all visits (record { entries = []; skipped = [] }) in
    All-perm (λ (en : CacheEntry). cache_skip en.name ≡ false) (λ en. hlevel)
      (map (entry_of join sort) w.entries) _ (perm _)
      (All-map (λ (en : CacheEntry). cache_skip en.name ≡ false) (entry_of join sort) w.entries
        (walk_all-IsMedia visits (record { entries = []; skipped = [] }) tt))
