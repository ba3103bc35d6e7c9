-- ===== src/Engine/Titled.antt =====
-- engine.go: what `chooseFileForTitle` returns.
use bitlab.Prelude.{
  ℕ, suc, ◌≡◌, ◌≤◌, ◌<◌, ◌⊎◌, refl, sym, ap, ◌∙◌, ◌==◌, true, false, ◌&&◌, ◌||◌, List, [], ◌∷◌,
  ◌++◌, Option, none, some, inl, inr, Bytes, ltb, length, get_elem?, All, Bool-cases, Option-cases,
  length-append, ||_false, arith,
}
use mathlib.Core.Path.{subst}
use bitlab.Prelude.Int.{ℤ, ltb_ℤ, ◌≤ℤ◌}
use bitlab.Prelude.Members.{All-append, All-mono, All_lem}
use bitlab.Engine.Choose.{File, chosen, wanted_index, choose_file}
use bitlab.Engine.Largest.{get_elem?-append, get_elem?-end, append_one}
use bitlab.Engine.Title.{
  hint_words, join_spaces, name_words, telling_words, count_hits, Top, best_hits, ties_larger,
  better_title, title_step, best_title, choose_title, choose_file_for_title,
}

-- How many of the words a file has; one that is no video has none.
unfoldable pub hits_of : List Bytes → File → ℕ
unfolding name_words count_hits
hits_of disc f = elim (name_words f) [ none ↦ 0 | some set ↦ count_hits disc set ]

hits_none : (disc : List Bytes) (f : File) → name_words f ≡ none → hits_of disc f ≡ 0
unfolding hits_of
hits_none disc f e = rw (e, hits_of) refl

hits_some :
    (disc : List Bytes) (f : File) (set : List Bytes)
    → name_words f ≡ some set
    → hits_of disc f ≡ count_hits disc set
unfolding hits_of
hits_some disc f set e = rw (e, hits_of) refl

hits_no_words : (f : File) → hits_of [] f ≡ 0
unfolding count_hits
hits_no_words f = elim (Option-cases (name_words f)) [
  | inl text ↦ hits_none [] f text
  | inr (set, video) ↦ hits_some [] f set video
]

-- No file has more of the words, and none that has as many is larger.
pub record IsTop (disc : List Bytes) (fs : List File) (t : Top) : Type 0 where
  pub best : File
  pub there : get_elem? fs t.at ≡ some best
  pub counted : hits_of disc best ≡ t.hits
  pub sized : best.size ≡ t.top_size
  pub named : 0 < t.hits
  pub no_better :
      All (λ g. (hits_of disc g ≤ t.hits) × (hits_of disc g ≡ t.hits → g.size ≤ℤ t.top_size)) fs

append_nil {ℓ} : {A : Type ℓ} (xs : List A) → xs ≡ xs ++ []
append_nil [] = refl
append_nil (x ∷ xs) = ap (◌∷◌ x) (append_nil xs)

chosen_inj : {a b : ℕ} → chosen a ≡ chosen b → a ≡ b
chosen_inj h = cc

module _ (disc : List Bytes) where
  abbrev IsTopOf : List File → Option Top → Type 0
  IsTopOf seen none = All (λ g. hits_of disc g ≡ 0) seen
  IsTopOf seen (some t) = IsTop disc seen t

  abbrev Below : Top → File → Type 0
  Below t g = (hits_of disc g ≤ t.hits) × (hits_of disc g ≡ t.hits → g.size ≤ℤ t.top_size)

  stays :
      (seen : List File) (f : File) (best : Option Top)
      → IsTopOf seen best
      → hits_of disc f ≤ best_hits best
      → (hits_of disc f == best_hits best && ties_larger (hits_of disc f) f best) ≡ false
      → IsTopOf (seen ++ f ∷ []) best
  unfolding ties_larger
  stays seen f none h less tie =
      All-append (λ g. hits_of disc g ≡ 0) seen (f ∷ []) h (omega arith, tt)
  stays seen f (some t) h less tie = record {
    best = h.best;
    there = get_elem?-append seen (f ∷ []) t.at h.best h.there;
    counted = h.counted;
    sized = h.sized;
    named = h.named;
    no_better =
        All-append (Below t) seen (f ∷ []) h.no_better
          ((less, (λ e. no_larger (hits_of disc f) t.hits t.top_size f.size e h.named tie)), tt);
  }
    where
      no_larger :
          (n m : ℕ) (s u : ℤ) → n ≡ m → 0 < m → (n == m && (ltb 0 n && ltb_ℤ s u)) ≡ false → u ≤ℤ s
      no_larger n m s u e some_hits h = ground arith

  abbrev lead : List File → File → Top
  lead seen f = record { at = length seen; top_size = f.size; hits = hits_of disc f }

  leads :
      (seen : List File) (f : File)
      → 0 < hits_of disc f
      → All (Below (lead seen f)) seen
      → IsTop disc (seen ++ f ∷ []) (lead seen f)
  leads seen f some_hits h = record {
    best = f;
    there = get_elem?-end seen [] f;
    counted = refl;
    sized = refl;
    named = some_hits;
    no_better =
        All-append (Below (lead seen f)) seen (f ∷ []) h ((omega arith, (λ e. omega arith)), tt);
  }

  overtakes :
      (seen : List File) (f : File) (best : Option Top)
      → IsTopOf seen best
      → (ltb (best_hits best) (hits_of disc f)
          || (hits_of disc f == best_hits best && ties_larger (hits_of disc f) f best))
        ≡ true
      → IsTop disc (seen ++ f ∷ []) (lead seen f)
  unfolding ties_larger
  overtakes seen f none h more = leads seen f (some_hits (hits_of disc f) more) (
      All-mono (λ g. hits_of disc g ≡ 0) (Below (lead seen f)) seen
        (λ g none_hit.
          below (hits_of disc g) (hits_of disc f) g.size f.size none_hit
            (some_hits (hits_of disc f) more))
        h)
    where
      some_hits : (n : ℕ) → (ltb 0 n || (n == 0 && false)) ≡ true → 0 < n
      some_hits n h = ground arith

      below : (k n : ℕ) (s u : ℤ) → k ≡ 0 → 0 < n → (k ≤ n) × (k ≡ n → s ≤ℤ u)
      below k n s u e h = (omega arith, (λ e'. absurd (omega arith)))
  overtakes seen f (some t) h more =
      leads seen f (some_hits (hits_of disc f) t.hits t.top_size f.size h.named more) (
        All-mono (Below t) (Below (lead seen f)) seen
          (λ g b.
            below (hits_of disc g) (hits_of disc f) t.hits g.size t.top_size f.size more b.0 b.1)
          h.no_better)
    where
      some_hits :
          (n m : ℕ) (s u : ℤ)
          → 0 < m
          → (ltb m n || (n == m && (ltb 0 n && ltb_ℤ s u))) ≡ true
          → 0 < n
      some_hits n m s u h k = ground arith

      below :
          (k n m : ℕ) (v s u : ℤ)
          → (ltb m n || (n == m && (ltb 0 n && ltb_ℤ s u))) ≡ true
          → k ≤ m
          → (k ≡ m → v ≤ℤ s)
          → (k ≤ n) × (k ≡ n → v ≤ℤ u)
      below k n m v s u h le tie = ground arith

  -- A file that is no video is like one without hits.
  title_step-better_title :
      (i : ℕ) (f : File) (best : Option Top)
      → title_step disc i f best ≡ better_title i f (hits_of disc f) best
  unfolding title_step better_title ties_larger
  title_step-better_title i f best = elim (Option-cases (name_words f)) [
    | inl text ↦ rw (text, title_step, hits_none disc f text) (no_hits best)
    | inr (set, video) ↦ rw (video, title_step, hits_some disc f set video) refl
  ]
    where
      no_hits : (best : Option Top) → best ≡ better_title i f 0 best
      no_hits none = refl
      no_hits (some t) = ground arith

  step :
      (seen : List File) (f : File) (best : Option Top)
      → IsTopOf seen best
      → IsTopOf (seen ++ f ∷ []) (better_title (length seen) f (hits_of disc f) best)
  unfolding better_title
  step seen f best h =
      let n = hits_of disc f in
      elim (Bool-cases (ltb (best_hits best) n || (n == best_hits best && ties_larger n f best))) [
        | inl more ↦ rw more (overtakes seen f best h more)
        | inr less ↦
            let (fewer, tie) =
              ||_false (ltb (best_hits best) n) (n == best_hits best && ties_larger n f best)
                less in
            rw less (stays seen f best h (at_most n (best_hits best) fewer) tie)
      ]
    where
      at_most : (n m : ℕ) → ltb m n ≡ false → n ≤ m
      at_most n m h = ground arith

  loop :
      (seen fs : List File) (best : Option Top)
      → IsTopOf seen best
      → IsTopOf (seen ++ fs) (best_title disc (length seen) fs best)
  unfolding best_title
  loop seen [] best h = subst (λ z. IsTopOf z best) (append_nil seen) h
  loop seen (f ∷ fs) best h =
      let best' = title_step disc (length seen) f best in
      subst (λ z. IsTopOf z (best_title disc (suc (length seen)) fs best')) (append_one seen fs f)
        (subst (λ n. IsTopOf ((seen ++ f ∷ []) ++ fs) (best_title disc n fs best'))
          (length-append seen (f ∷ []) ∙ omega arith)
          (loop (seen ++ f ∷ []) fs best' (
            subst (IsTopOf (seen ++ f ∷ [])) (sym (title_step-better_title (length seen) f best))
              (step seen f best h))))

  best_title-IsTopOf : (fs : List File) → IsTopOf fs (best_title disc 0 fs none)
  best_title-IsTopOf fs = loop [] fs none tt

-- The film that is asked for by title: it has the most of the words that not every video has, and is one of the
-- largest such; or no file has one, and it is what `chooseFile` takes.
abbrev pub IsTitled : List File → ℤ → List Bytes → ℕ → Type 0
IsTitled fs want words i =
    let disc = telling_words fs words in
    ((t : Top) × (IsTop disc fs t × (t.at ≡ i)))
    ⊎ (All (λ g. hits_of disc g ≡ 0) fs × (choose_file fs want ≡ chosen i))

choose_title-IsTitled :
    (fs : List File) (want : ℤ) (words : List Bytes) (i : ℕ)
    → choose_title fs want words ≡ chosen i
    → IsTitled fs want words i
unfolding choose_title
choose_title-IsTitled fs want words i h =
    let disc = telling_words fs words in
    elim (Option-cases (best_title disc 0 fs none)) [
      | inl e ↦ inr (
        subst (IsTopOf disc fs) e (best_title-IsTopOf disc fs),
        sym (rw (e, choose_title) refl) ∙ h,
      )
      | inr (t, e) ↦
          let top = subst (IsTopOf disc fs) e (best_title-IsTopOf disc fs) in
          inl
            (t, (top, chosen_inj (sym (rw (e, choose_title, positive t.hits top.named) refl) ∙ h)))
    ]
  where
    positive : (n : ℕ) → 0 < n → ltb 0 n ≡ true
    positive n h = ground arith

-- Where no index is asked for, chooseFileForTitle returns a file that has most of the words of the
-- title that not every video has, and one of the largest that has as many; or no file has any such
-- word, and it returns what chooseFile does.
pub choose_file_for_title-IsTitled :
    (fs : List File) (want : ℤ) (hints : List Bytes) (i : ℕ)
    → wanted_index want (length fs) ≡ none
    → choose_file_for_title fs want hints ≡ chosen i
    → IsTitled fs want (hint_words (join_spaces hints)) i
unfolding choose_file_for_title telling_words
choose_file_for_title-IsTitled fs want hints i none_asked h =
    go (hint_words (join_spaces hints)) refl
  where
    go : (ws : List Bytes) → hint_words (join_spaces hints) ≡ ws → IsTitled fs want ws i
    go [] e = inr (
      All_lem (λ g. hits_of [] g ≡ 0) fs hits_no_words,
      sym (rw (none_asked, choose_file_for_title, e) refl) ∙ h,
    )
    go (w ∷ ws) e =
        choose_title-IsTitled fs want (w ∷ ws) i
          (sym (rw (none_asked, choose_file_for_title, e) refl) ∙ h)
