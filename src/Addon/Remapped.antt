-- ===== src/Addon/Remapped.antt =====
-- addon.go: what `remapEpisode` answers, and the bound of the cache of episode lists.
use bitlab.Prelude.{
  ℕ, zero, suc, ◌≡◌, ◌≢◌, ◌≤◌, ◌⊎◌, ◌↔◌, refl, sym, ap, ◌∙◌, true, false, List, [], ◌∷◌, none, some,
  inl, inr, Bytes, length, get_elem?, keep_if, Bool-cases, Option-cases, some_inj, arith,
}
use mathlib.Core.Path.{subst}
use mathlib.Core.Bool.{false≢true}
use mathlib.Core.Option.{none-ne-some}
use bitlab.Prelude.Int.{ℤ, pos, negsuc, eqb_ℤ, ltb_ℤ, leb_ℤ, ◌+ℤ◌, ◌<ℤ◌, ◌≤ℤ◌, eq_of_parts}
use bitlab.Prelude.Assoc.{Assoc, lookup, insert}
use bitlab.Addon.Episodes.{
  Episode, in_season, nth_episode, or_same, remap_episode, EpisodeCache, store_episode_list,
}

-- The season is that of the first episode of the list, which has fewer episodes than this number, and
-- the list has as many.
pub record IsBeyond (eps : List Episode) (season ep : ℤ) : Type 0 where
  pub first : Episode
  pub starts : get_elem? eps 0 ≡ some first
  pub of_first : season ≡ first.0
  pub past : pos (length (keep_if (λ (e : Episode). eqb_ℤ e.0 season) eps)) <ℤ ep
  pub within : ep ≤ℤ pos (length eps)

-- The episode of this number, counted from the start of the list.
pub record IsAbsolute (eps : List Episode) (ep : ℤ) (e : Episode) : Type 0 where
  pub place : ℕ
  pub number : ep ≡ pos (suc place)
  pub listed : get_elem? eps place ≡ some e

get_elem?-there {ℓ} :
    {A : Type ℓ} (n : ℕ) (xs : List A) → suc n ≤ length xs → (a : A) × (get_elem? xs n ≡ some a)
get_elem?-there n [] h = absurd (omega arith)
get_elem?-there zero (x ∷ xs) h = (x, refl)
get_elem?-there (suc n) (x ∷ xs) h = get_elem?-there n xs (omega arith)

nth_episode-IsAbsolute :
    (eps : List Episode) (season ep : ℤ) (n : ℕ)
    → leb_ℤ ep (pos n) ≡ false
    → leb_ℤ ep (pos (length eps)) ≡ true
    → IsAbsolute eps ep (or_same (season, ep) (nth_episode eps ep))
unfolding nth_episode
nth_episode-IsAbsolute eps season (pos zero) m h k = absurd (ground arith)
nth_episode-IsAbsolute eps season (negsuc n) m h k = absurd (ground arith)
nth_episode-IsAbsolute eps season (pos (suc n)) m h k =
    let (e, there) = get_elem?-there n eps (ground arith) in
    rw there (record { place = n; number = refl; listed = there })

eqb_ℤ_iff : (a b : ℤ) → (eqb_ℤ a b ≡ true) ↔ (a ≡ b)
eqb_ℤ_iff a b = ground (arith, eq_of_parts a b)

-- Where the season is that of the first episode of the list, and the number is more than that season
-- has episodes and at most the length of the list, remapEpisode answers with the episode that has
-- this number when the list is counted through from its start; and every other request it leaves as
-- it is.
pub remap_episode-IsAbsolute :
    (eps : List Episode) (season ep : ℤ)
    → (IsBeyond eps season ep × IsAbsolute eps ep (remap_episode eps season ep))
      ⊎ ((¬ IsBeyond eps season ep) × (remap_episode eps season ep ≡ (season, ep)))
unfolding remap_episode in_season
remap_episode-IsAbsolute [] season ep = inr (λ b. none-ne-some b.first b.starts, refl)
remap_episode-IsAbsolute (first ∷ rest) season ep =
    let eps = first ∷ rest in
    elim (Bool-cases (eqb_ℤ season first.0)) [
      | inr other ↦ inr (λ b. not_other b other, rw other refl)
      | inl same ↦ elim (Bool-cases (leb_ℤ ep (pos (in_season season eps)))) [
        | inl fits ↦ inr (λ b. not_past b fits, rw (same, fits) refl)
        | inr beyond ↦ elim (Bool-cases (leb_ℤ ep (pos (length eps)))) [
          | inr far ↦ inr (λ b. not_within b far, rw (same, beyond, far) refl)
          | inl listed ↦ inl (
            record {
              first = first;
              starts = refl;
              of_first = (eqb_ℤ_iff season first.0).0 same;
              past = ground arith;
              within = ground arith;
            },
            rw (same, beyond, listed)
                (nth_episode-IsAbsolute eps season ep (in_season season eps) beyond listed),
          )
        ]
      ]
    ]
  where
    not_other : IsBeyond (first ∷ rest) season ep → eqb_ℤ season first.0 ≢ false
    not_other b other = false≢true (
        sym other
        ∙ (eqb_ℤ_iff season first.0).1
            (b.of_first ∙ ap (λ (e : Episode). e.0) (sym (some_inj b.starts))))

    not_past :
        IsBeyond (first ∷ rest) season ep → leb_ℤ ep (pos (in_season season (first ∷ rest))) ≢ true
    not_past b fits = let past = b.past in ground arith

    not_within : IsBeyond (first ∷ rest) season ep → leb_ℤ ep (pos (length (first ∷ rest))) ≢ false
    not_within b far = let within = b.within in ground arith

-- The counter is the number of lists, of which there are at most 4096.
pub record IsCounted (c : EpisodeCache) : Type 0 where
  pub counted : c.count ≡ pos (length c.lists)
  pub bounded : length c.lists ≤ 4096

length-insert_new :
    (k : Bytes) (v : List Episode) (m : Assoc (List Episode))
    → lookup k m ≡ none
    → length (insert k v m) ≡ suc (length m)
unfolding lookup insert
length-insert_new k v [] h = refl
length-insert_new k v ((j, u) ∷ m) h = ground (arith, length-insert_new k v m)

length-insert_old :
    (k : Bytes) (v w : List Episode) (m : Assoc (List Episode))
    → lookup k m ≡ some w
    → length (insert k v m) ≡ length m
unfolding lookup insert
length-insert_old k v w [] h = cc
length-insert_old k v w ((j, u) ∷ m) h = ground (arith, length-insert_old k v w m)

next_count : (n : ℕ) → pos n +ℤ pos 1 ≡ pos (suc n)
unfolding ◌+ℤ◌
next_count n = ground arith

-- storeEpisodeList keeps the counter at the number of lists, and the lists at 4096 or fewer.
pub store_episode_list-IsCounted :
    (imdb_id : Bytes) (eps : List Episode) (c : EpisodeCache)
    → IsCounted c
    → IsCounted (store_episode_list imdb_id eps c)
unfolding store_episode_list
store_episode_list-IsCounted imdb_id eps c h = elim (Option-cases (lookup imdb_id c.lists)) [
  | inr (old, there) ↦
      let same = length-insert_old imdb_id eps old c.lists there in
      rw (there, store_episode_list)
        (record { counted = h.counted ∙ ap pos (sym same); bounded = omega (arith, h.bounded) })
  | inl missing ↦
      let more = length-insert_new imdb_id eps c.lists missing in
      let count = ap (λ z. z +ℤ pos 1) h.counted ∙ next_count (length c.lists) in
      elim (Bool-cases (ltb_ℤ (pos 4096) (c.count +ℤ pos 1))) [
        | inl full ↦
            rw (missing, store_episode_list, full)
              (record {
                counted = ap pos (one imdb_id eps);
                bounded = omega (arith, one imdb_id eps);
              })
        | inr room ↦
            rw (missing, store_episode_list, room)
              (record {
                counted = count ∙ ap pos (sym more);
                bounded = omega (
                  arith,
                  fits (length c.lists) (subst (λ z. ltb_ℤ (pos 4096) z ≡ false) count room),
                );
              })
      ]
]
  where
    one : (k : Bytes) (v : List Episode) → 1 ≡ length (insert k v [])
    one k v = sym (length-insert_new k v [] refl)

    fits : (n : ℕ) → ltb_ℤ (pos 4096) (pos (suc n)) ≡ false → suc n ≤ 4096
    fits n h = ground arith
