-- ===== src/Addon/Episodes.antt =====
-- addon.go: `remapEpisode`, `fixEpisodeNumber`, `storeEpisodeList` and `parseMediaID`.
use bitlab.Prelude.{
  ℕ, zero, suc, ◌-◌, ◌||◌, not, List, [], ◌∷◌, Option, none, some, Bytes, bytes, has_suffix,
  if◌then◌else◌, length, take, keep_if, get_elem?,
}
use bitlab.Prelude.Int.{ℤ, pos, negsuc, eqb_ℤ, ltb_ℤ, leb_ℤ, ◌+ℤ◌}
use bitlab.Prelude.Assoc.{Assoc, lookup, insert}
use bitlab.Prelude.Search.{split_at}
use bitlab.Prelude.Decimal.{atoi_value}

-- A season and an episode.
abbrev pub Episode : Type 0
Episode = ℤ × ℤ

-- `inSeason`.
unfoldable pub in_season : ℤ → List Episode → ℕ
in_season season eps = length (keep_if (λ (e : Episode). eqb_ℤ e.0 season) eps)

-- `eps[ep-1]`, for a positive episode; none where it is out of range.
unfoldable pub nth_episode : List Episode → ℤ → Option Episode
nth_episode eps (pos (suc n)) = get_elem? eps n
nth_episode eps (pos zero) = none
nth_episode eps (negsuc n) = none

abbrev pub or_same : Episode → Option Episode → Episode
or_same e none = e
or_same e (some e') = e'

-- `remapEpisode`.
unfoldable pub remap_episode : List Episode → ℤ → ℤ → Episode
unfolding in_season nth_episode
remap_episode [] season ep = (season, ep)
remap_episode (first ∷ rest) season ep =
    if not (eqb_ℤ season first.0)
    then (season, ep)
    else (if leb_ℤ ep (pos (in_season season (first ∷ rest)))
        then (season, ep)
        else (if leb_ℤ ep (pos (length (first ∷ rest)))
            then or_same (season, ep) (nth_episode (first ∷ rest) ep)
            else (season, ep)))

-- `epCache` with `epN`.
pub record EpisodeCache : Type 0 where
  pub lists : Assoc (List Episode)
  pub count : ℤ

-- `fixEpisodeNumber`.
unfoldable pub fix_episode_number : EpisodeCache → Bytes → ℤ → ℤ → Episode
unfolding remap_episode lookup
fix_episode_number c imdb_id season ep =
    if leb_ℤ ep (pos 0) || leb_ℤ season (pos 0)
    then (season, ep)
    else elim (lookup imdb_id c.lists) [
      | none ↦ (season, ep)
      | some eps ↦ remap_episode eps season ep
    ]

-- `storeEpisodeList`.
unfoldable pub store_episode_list : Bytes → List Episode → EpisodeCache → EpisodeCache
unfolding lookup insert ◌+ℤ◌
store_episode_list imdb_id eps c = elim (lookup imdb_id c.lists) [
  | some old ↦ record c { lists = insert imdb_id eps c.lists }
  | none ↦
      if ltb_ℤ (pos 4096) (c.count +ℤ pos 1)
      then record { lists = insert imdb_id eps []; count = pos 1 }
      else record { lists = insert imdb_id eps c.lists; count = c.count +ℤ pos 1 }
]

-- `strings.TrimSuffix(id, ".json")`.
unfoldable pub trim_json : Bytes → Bytes
unfolding has_suffix
trim_json id = if has_suffix id (bytes ".json") then take (length id - 5) id else id

unfoldable pub media_parts : List Bytes → Bytes × Episode
unfolding atoi_value
media_parts [] = ([], (pos 0, pos 0))
media_parts (base ∷ []) = (base, (pos 0, pos 0))
media_parts (base ∷ a ∷ []) = (base, (pos 0, pos 0))
media_parts (base ∷ a ∷ b ∷ rest) = (base, (atoi_value a, atoi_value b))

-- `parseMediaID`.
unfoldable pub parse_media_id : Bytes → Bytes × Episode
unfolding media_parts trim_json split_at
parse_media_id id = media_parts (split_at 58 (trim_json id))
