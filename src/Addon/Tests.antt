-- ===== src/Addon/Tests.antt =====
-- Episodes of a show of two seasons, and the properties there.
use bitlab.Prelude.{◌≡◌, ◌⊎◌, refl, List, [], ◌∷◌, bytes, bytes_eq, has_suffix, arith}
use bitlab.Prelude.Int.{pos, ◌+ℤ◌}
use bitlab.Prelude.Assoc.{lookup, insert}
use bitlab.Prelude.Search.{split_at}
use bitlab.Prelude.Decimal.{atoi_value, limited, digits_value, is_digit}
use bitlab.Addon.Episodes.{
  Episode, in_season, nth_episode, remap_episode, EpisodeCache, fix_episode_number,
  store_episode_list, trim_json, media_parts, parse_media_id,
}
use bitlab.Addon.Remapped.{
  IsBeyond, IsAbsolute, remap_episode-IsAbsolute, IsCounted, store_episode_list-IsCounted,
}

program : Unit {0}
unfolding parse_media_id media_parts trim_json store_episode_list fix_episode_number remap_episode
    nth_episode in_season lookup insert split_at atoi_value limited digits_value is_digit bytes_eq
    has_suffix ◌+ℤ◌
program = tt

abbrev show : List Episode
show = (pos 1, pos 1) ∷ (pos 1, pos 2) ∷ (pos 2, pos 1) ∷ (pos 2, pos 2) ∷ []

remaps_third : remap_episode show (pos 1) (pos 3) ≡ (pos 2, pos 1)
unfolding program
remaps_third = refl

reads_id : parse_media_id (bytes "tt0944947:1:51.json") ≡ (bytes "tt0944947", (pos 1, pos 51))
unfolding program
reads_id = refl

abbrev no_lists : EpisodeCache
no_lists = record { lists = []; count = pos 0 }

fixes_third :
    fix_episode_number
      (store_episode_list (bytes "tt1") show no_lists)
      (bytes "tt1")
      (pos 1)
      (pos 3)
    ≡ (pos 2, pos 1)
unfolding program
fixes_third = refl

remap_episode-IsAbsolute_example :
    (IsBeyond show (pos 1) (pos 3) × IsAbsolute show (pos 3) (remap_episode show (pos 1) (pos 3)))
    ⊎ ((¬ IsBeyond show (pos 1) (pos 3)) × (remap_episode show (pos 1) (pos 3) ≡ (pos 1, pos 3)))
remap_episode-IsAbsolute_example = remap_episode-IsAbsolute show (pos 1) (pos 3)

store_episode_list-IsCounted_example : IsCounted (store_episode_list (bytes "tt1") show no_lists)
store_episode_list-IsCounted_example =
    store_episode_list-IsCounted (bytes "tt1") show no_lists
      (record { counted = refl; bounded = omega arith })
