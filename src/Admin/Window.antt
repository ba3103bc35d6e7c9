-- ===== src/Admin/Window.antt =====
-- admin.go: `failWindow`, the failed sign-ins of each address. Times are nanoseconds.
use bitlab.Prelude.{
  Bool, true, List, [], ◌∷◌, ◌++◌, none, some, Bytes, if◌then◌else◌, keep_if, leb, ltb, length,
}
use bitlab.Prelude.Int.{ℤ, pos, ◌-ℤ◌, ltb_ℤ}
use bitlab.Prelude.Assoc.{Assoc, lookup, insert, erase}

abbrev pub Hits : Type 0
Hits = Assoc (List ℤ)

-- `time.Now().Add(-10 * time.Minute)`.
unfoldable pub cut_of : ℤ → ℤ
unfolding ◌-ℤ◌
cut_of now = now -ℤ pos 600_000_000_000

-- `f.hits[ip]`, where a missing key reads as an empty list.
unfoldable pub hits_of : Bytes → Hits → List ℤ
unfolding lookup
hits_of ip hits = elim (lookup ip hits) [ none ↦ [] | some ts ↦ ts ]

-- The hits inside the window.
unfoldable pub recent : ℤ → List ℤ → List ℤ
unfolding cut_of
recent now ts = keep_if (λ t. ltb_ℤ (cut_of now) t) ts

-- `blocked`.
unfoldable pub blocked : Bytes → ℤ → Hits → Bool × Hits
unfolding hits_of recent insert erase
blocked ip now hits =
    let kept = recent now (hits_of ip hits) in
    (leb 10 (length kept), if leb (length kept) 0 then erase ip hits else insert ip kept hits)

-- `len(v) == 0 || v[len(v)-1].Before(cut)`: the last hit is older than the window.
unfoldable pub is_cold : ℤ → List ℤ → Bool
is_cold cut [] = true
is_cold cut (t ∷ []) = ltb_ℤ t cut
is_cold cut (t ∷ t' ∷ ts) = is_cold cut (t' ∷ ts)

unfoldable pub drop_cold : ℤ → Hits → Hits
unfolding is_cold
drop_cold cut [] = []
drop_cold cut ((ip, ts) ∷ hits) =
    if is_cold cut ts then drop_cold cut hits else (ip, ts) ∷ drop_cold cut hits

-- The bound on the map, applied before a hit is added.
unfoldable pub bounded : ℤ → Hits → Hits
unfolding cut_of drop_cold
bounded now hits =
    let warm = drop_cold (cut_of now) hits in
    if ltb 10_000 (length hits) then (if ltb 10_000 (length warm) then [] else warm) else hits

-- `fail`.
unfoldable pub fail : Bytes → ℤ → Hits → Hits
unfolding bounded hits_of insert
fail ip now hits = let kept = bounded now hits in insert ip (hits_of ip kept ++ now ∷ []) kept

-- `reset`.
unfoldable pub reset : Bytes → Hits → Hits
unfolding erase
reset ip hits = erase ip hits
