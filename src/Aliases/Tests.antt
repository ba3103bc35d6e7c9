-- ===== src/Aliases/Tests.antt =====
-- The names kept for a title with five candidates.
use bitlab.Prelude.{
  ◌≡◌, ◌≤◌, refl, ◌==◌, ◌&&◌, leb, not, false, List, [], ◌∷◌, Bytes, bytes, bytes_eq, keep_if,
  length,
}
use bitlab.Prelude.Trim.{trim_space, trim_left, trim_back}
use bitlab.Prelude.Search.{to_lower, lower_byte, split_at}
use bitlab.Engine.Title.{join_spaces}
use bitlab.Aliases.Pick.{Unicode, count_letters, is_latin, pick_from, pick_aliases}
use bitlab.Aliases.Picked.{AreNew, pick_aliases-AreNew}

program : Unit {0}
unfolding pick_aliases pick_from is_latin count_letters join_spaces trim_space trim_left trim_back
    to_lower lower_byte split_at bytes_eq
program = tt

-- What is ASCII of the tables.
abbrev ascii : Unicode
ascii = record {
  runes = λ s. s;
  in_latin = λ r. false;
  is_punct = λ r. leb 33 r && leb r 58;
  is_space = λ r. r == 32;
  is_symbol = λ r. false;
  to_lower = to_lower;
  fields = λ s. keep_if (λ w. not (bytes_eq w [])) (split_at 32 s);
}

abbrev names : List Bytes
names =
    bytes "shingeki  no kyojin"
    ∷ bytes "AoT: Final"
    ∷ bytes "Attack on Titan"
    ∷ bytes "aot: final"
    ∷ bytes "so"
    ∷ []

abbrev kept : List Bytes
kept = bytes "shingeki no kyojin" ∷ bytes "AoT: Final" ∷ []

picks : pick_aliases ascii (bytes " attack on titan ") names ≡ kept
unfolding program
picks = refl

pick_aliases-AreNew_example : (length kept ≤ 3) × AreNew ascii (bytes "attack on titan" ∷ []) kept
unfolding program
pick_aliases-AreNew_example = pick_aliases-AreNew ascii (bytes " attack on titan ") names
