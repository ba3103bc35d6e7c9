-- ===== src/Aliases/Pick.antt =====
-- anilist.go: `pickAliases` and `isLatin`. The tables of Go's `unicode`, with what `strings` makes of
-- them, are parameters.
use bitlab.Prelude.{
  ℕ, suc, ◌==◌, Bool, false, ◌&&◌, ◌||◌, not, List, [], ◌∷◌, Option, none, some, Bytes, bytes_eq,
  if◌then◌else◌, leb, ltb, length, any,
}
use bitlab.Prelude.Trim.{trim_space}
use bitlab.Engine.Title.{join_spaces}

-- `range` over a text, the classes of a rune, `strings.ToLower` and `strings.Fields`.
pub record Unicode : Type 0 where
  pub runes : Bytes → List ℕ
  pub in_latin : ℕ → Bool
  pub is_punct : ℕ → Bool
  pub is_space : ℕ → Bool
  pub is_symbol : ℕ → Bool
  pub to_lower : Bytes → Bytes
  pub fields : Bytes → List Bytes

module _ (u : Unicode) where
  abbrev pub is_letter : ℕ → Bool
  is_letter r = ((leb 97 r && leb r 122) || (leb 65 r && leb r 90)) || u.in_latin r

  abbrev pub is_filler : ℕ → Bool
  is_filler r = (leb 48 r && leb r 57) || (u.is_punct r || (u.is_space r || u.is_symbol r))

  -- The loop of `isLatin`: the letters, unless another rune ends it.
  unfoldable pub count_letters : List ℕ → ℕ → Option ℕ
  count_letters [] letters = some letters
  count_letters (r ∷ rs) letters =
      let counted = count_letters rs (suc letters) in
      let passed = count_letters rs letters in
      if is_letter r then counted else (if is_filler r then passed else none)

  unfoldable pub is_latin : Bytes → Bool
  unfolding count_letters
  is_latin s = elim (count_letters (u.runes s) 0) [ none ↦ false | some letters ↦ leb 2 letters ]

  -- The loop of `pickAliases`, with the number of names it has and the keys in `seen`: the names that
  -- it adds.
  unfoldable pub pick_from : ℕ → List Bytes → List Bytes → List Bytes
  unfolding is_latin bytes_eq join_spaces
  pick_from n seen [] = []
  pick_from n seen (c ∷ cs) =
      let name = join_spaces (u.fields c) in
      let key = u.to_lower name in
      let skipped = pick_from n seen cs in
      let taken = pick_from (suc n) (key ∷ seen) cs in
      if ltb (length name) 3 || ltb 70 (length name)
      then skipped
      else (if not (is_latin name)
          then skipped
          else (if any (bytes_eq key) seen
              then skipped
              else (if suc n == 3 then name ∷ [] else name ∷ taken)))

  -- `pickAliases`.
  unfoldable pub pick_aliases : Bytes → List Bytes → List Bytes
  unfolding pick_from trim_space
  pick_aliases original candidates = pick_from 0 (u.to_lower (trim_space original) ∷ []) candidates
