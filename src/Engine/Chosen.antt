-- ===== src/Engine/Chosen.antt =====
-- engine.go: what `chooseFile` and `chooseFileForEpisode` return.
use bitlab.Prelude.{
  ℕ, suc, ◌+◌, ◌≡◌, ◌≤◌, ◌⊎◌, ◌≢◌, refl, sym, ◌∙◌, Bool, true, false, List, [], ◌∷◌, none, some,
  inl, inr, length, take, get_elem?, keep_if, All, Bool-cases, Option-cases, arith,
}
use mathlib.Core.Path.{subst}
use bitlab.Prelude.Int.{ℤ, pos, ltb_ℤ}
use bitlab.Engine.Choose.{
  File, chosen, no_files, no_episode, is_video, wanted_index, is_playable, largest, choose_any,
  choose_largest, choose_file, Scan, found, counted, Judge, file_signal, scan_episode, after_scan,
  choose_file_for_episode,
}
use bitlab.Engine.Largest.{IsLargest, nothing_passes, largest-IsLargest}

-- The largest playable file, or where none is playable the largest file.
abbrev pub IsBestChoice : List File → ℕ → Type 0
IsBestChoice fs i =
    ((s : ℤ) × IsLargest (is_playable fs) fs i s)
    ⊎ (All (λ g. is_playable fs g ≡ false) fs × ((s : ℤ) × IsLargest (λ g. true) fs i s))

chosen_inj : {a b : ℕ} → chosen a ≡ chosen b → a ≡ b
chosen_inj h = cc

choose_any-chosen :
    (f : File) (fs : List File)
    → (i : ℕ) × ((s : ℤ) × ((choose_any (f ∷ fs) ≡ chosen i) × IsLargest (λ g. true) (f ∷ fs) i s))
unfolding choose_any
choose_any-chosen f fs = elim (Option-cases (largest (λ g. true) 0 (f ∷ fs) none)) [
  | inl e ↦ absurd (true_false (nothing_passes (λ g. true) (f ∷ fs) e).0)
  | inr ((i, s), e) ↦
      (i, (s, (rw (e, choose_any) refl, largest-IsLargest (λ g. true) (f ∷ fs) i s e)))
]
  where
    true_false : true ≡ false → ⊥
    true_false e = cc

choose_largest-chosen :
    (f : File) (fs : List File)
    → (i : ℕ) × ((choose_largest (f ∷ fs) ≡ chosen i) × IsBestChoice (f ∷ fs) i)
unfolding choose_largest
choose_largest-chosen f fs =
    let all = f ∷ fs in
    elim (Option-cases (largest (is_playable all) 0 all none)) [
      | inl e ↦
          let (i, (s, (same, best))) = choose_any-chosen f fs in
          (
            i,
            (rw (e, choose_largest) same, inr (nothing_passes (is_playable all) all e, (s, best))),
          )
      | inr ((i, s), e) ↦
          (i, (rw (e, choose_largest) refl, inl (s, largest-IsLargest (is_playable all) all i s e)))
    ]

-- chooseFile returns a position for every torrent with files: the index asked for where it is one of
-- the torrent's, and otherwise the first of the largest playable files, or of the largest files
-- where none is playable.
pub choose_file-chosen :
    (f : File) (fs : List File) (want : ℤ)
    → (i : ℕ) × ((choose_file (f ∷ fs) want ≡ chosen i)
        × ((wanted_index want (length (f ∷ fs)) ≡ some i)
            ⊎ ((wanted_index want (length (f ∷ fs)) ≡ none) × IsBestChoice (f ∷ fs) i)))
unfolding choose_file
choose_file-chosen f fs want = elim (Option-cases (wanted_index want (length (f ∷ fs)))) [
  | inl e ↦
      let (i, (same, best)) = choose_largest-chosen f fs in
      (i, (rw (e, choose_file) same, inr (e, best)))
  | inr (n, e) ↦ (n, (rw (e, choose_file) refl, inl e))
]

choose_file-best :
    (fs : List File) (want : ℤ) (i : ℕ)
    → wanted_index want (length fs) ≡ none
    → choose_file fs want ≡ chosen i
    → IsBestChoice fs i
unfolding choose_file
choose_file-best [] want i e h = absurd (different h)
  where
    different : no_files ≡ chosen i → ⊥
    different h = cc
choose_file-best (f ∷ fs) want i e h =
    let (k, (same, either)) = choose_file-chosen f fs want in
    elim either [
      | inl given ↦ absurd (none_there k (sym e ∙ given))
      | inr (e', best) ↦ subst (IsBestChoice (f ∷ fs)) (chosen_inj (sym same ∙ h)) best
    ]
  where
    none_there : (k : ℕ) → none ≢ some k
    none_there k h = cc

choose_file-ne-no_episode : (fs : List File) (want : ℤ) → choose_file fs want ≢ no_episode
unfolding choose_file
choose_file-ne-no_episode [] want h = different h
  where
    different : no_files ≢ no_episode
    different h = cc
choose_file-ne-no_episode (f ∷ fs) want h = different (sym ((choose_file-chosen f fs want).1.0) ∙ h)
  where
    different : {i : ℕ} → chosen i ≢ no_episode
    different {i} h = cc

module _ (j : Judge) (season ep : ℤ) where
  abbrev signal : File → ℤ
  signal f = file_signal j f.path season ep

  -- A video of the episode.
  abbrev pub Hits : File → Type 0
  Hits f = (is_video f.path ≡ true) × (ltb_ℤ (pos 0) (signal f) ≡ true)

  abbrev pub Misses : File → Type 0
  Misses f = is_video f.path ≡ true → ltb_ℤ (pos 0) (signal f) ≡ false

  -- No other episode is named.
  abbrev pub NamesNoOther : File → Type 0
  NamesNoOther f = is_video f.path ≡ true → ltb_ℤ (signal f) (pos 0) ≡ false

  abbrev pub video_count : List File → ℕ
  video_count fs = length (keep_if (λ f. is_video f.path) fs)

  -- The file at a position is the first video of the episode.
  abbrev pub IsFirstHit : List File → ℕ → Type 0
  IsFirstHit fs d = (f : File) × ((get_elem? fs d ≡ some f) × (Hits f × All Misses (take d fs)))

  abbrev IsScan : List File → ℕ → ℕ → ℕ → Scan → Type 0
  IsScan fs i n v (found k) = (d : ℕ) × ((k ≡ i + d) × IsFirstHit fs d)
  IsScan fs i n v (counted n' v') =
      All Misses fs × ((n ≤ n') × ((n' ≡ n → All NamesNoOther fs) × (v' ≡ v + video_count fs)))

  after_miss :
      (f : File) (fs : List File) (i n n1 v v1 : ℕ) (scan : Scan)
      → Misses f
      → n ≤ n1
      → (n1 ≡ n → NamesNoOther f)
      → v1 + video_count fs ≡ v + video_count (f ∷ fs)
      → IsScan fs (suc i) n1 v1 scan
      → IsScan (f ∷ fs) i n v scan
  after_miss f fs i n n1 v v1 (found k) miss le quiet count (d, (at, (g, (there, (hit, before))))) =
      (suc d, (at ∙ omega arith, (g, (there, (hit, (miss, before))))))
  after_miss f fs i n n1 v v1 (counted n' v') miss le quiet count (rest, (more, (silent, total))) =
      (
        (miss, rest),
        (omega arith, ((λ e. (quiet (omega arith), silent (omega arith))), total ∙ count)),
      )

  scan_episode-IsScan :
      (i : ℕ) (fs : List File) (n v : ℕ) → IsScan fs i n v (scan_episode j season ep i fs n v)
  unfolding scan_episode
  scan_episode-IsScan i [] n v = (tt, (omega arith, ((λ e. tt), omega arith)))
  scan_episode-IsScan i (f ∷ fs) n v = elim (Bool-cases (is_video f.path)) [
    | inr text ↦ rw text (
        after_miss f fs i n n v v (scan_episode j season ep (suc i) fs n v)
          (λ video. absurd (both text video)) (omega arith) (λ e video. absurd (both text video))
          (rw text refl) (scan_episode-IsScan (suc i) fs n v))
    | inl video ↦ elim (Bool-cases (ltb_ℤ (pos 0) (signal f))) [
      | inl hit ↦ rw (video, hit) (0, (omega arith, (f, (refl, ((video, hit), tt)))))
      | inr miss ↦ elim (Bool-cases (ltb_ℤ (signal f) (pos 0))) [
        | inl other ↦
            rw (video, miss, other)
              (after_miss f fs i n (suc n) v (suc v)
                (scan_episode j season ep (suc i) fs (suc n) (suc v)) (λ is. miss) (omega arith)
                (λ e. absurd (too_many n e)) (rw video (omega arith))
                (scan_episode-IsScan (suc i) fs (suc n) (suc v)))
        | inr silent ↦
            rw (video, miss, silent)
              (after_miss f fs i n n v (suc v) (scan_episode j season ep (suc i) fs n (suc v))
                (λ is. miss) (omega arith) (λ e is. silent) (rw video (omega arith))
                (scan_episode-IsScan (suc i) fs n (suc v)))
      ]
    ]
  ]
    where
      both : {b : Bool} → b ≡ false → b ≡ true → ⊥
      both {b} e d = cc

      too_many : (n : ℕ) → suc n ≡ n → ⊥
      too_many n e = omega arith

  -- What the choice may be: the first video of the episode; or, where no video names an episode and
  -- there are three at most, what `chooseFile` takes.
  abbrev pub IsFit : List File → ℕ → Type 0
  IsFit fs i =
      IsFirstHit fs i
      ⊎ (All Misses fs × (All NamesNoOther fs × ((video_count fs ≤ 3) × IsBestChoice fs i)))

  after_scan-counted :
      (fs : List File) (want : ℤ) (n v i : ℕ)
      → after_scan j fs want (counted n v) ≡ chosen i
      → (n ≡ 0) × ((v ≤ 3) × (choose_file fs want ≡ chosen i))
  unfolding after_scan
  after_scan-counted fs want n v i h = ground arith

  after_scan-IsFit :
      (fs : List File) (want : ℤ) (scan : Scan) (i : ℕ)
      → wanted_index want (length fs) ≡ none
      → IsScan fs 0 0 0 scan
      → after_scan j fs want scan ≡ chosen i
      → IsFit fs i
  unfolding after_scan
  after_scan-IsFit fs want (found k) i none_asked (d, (at, hit)) h =
      inl (subst (IsFirstHit fs) (sym (at ∙ omega arith) ∙ chosen_inj h) hit)
  after_scan-IsFit fs want (counted n v) i none_asked (miss, (le, (silent, total))) h =
      let (no_other, (few, taken)) = after_scan-counted fs want n v i h in
      inr (miss, (silent no_other, (omega arith, choose_file-best fs want i none_asked taken)))

  -- Where an episode and no index is asked for, the file that chooseFileForEpisode returns is the
  -- first video that names the episode; or no video of the torrent names an episode, there are three
  -- videos at most, and the file is the one that chooseFile takes.
  pub choose_file_for_episode-IsFit :
      (fs : List File) (want : ℤ) (i : ℕ)
      → wanted_index want (length fs) ≡ none
      → ltb_ℤ (pos 0) ep ≡ true
      → choose_file_for_episode j fs want season ep ≡ chosen i
      → IsFit fs i
  unfolding choose_file_for_episode
  choose_file_for_episode-IsFit fs want i none_asked asked h =
      after_scan-IsFit fs want (scan_episode j season ep 0 fs 0 0) i none_asked
        (scan_episode-IsScan 0 fs 0 0)
        (sym (rw (none_asked, choose_file_for_episode, asked) refl) ∙ h)

  after_scan-no_episode :
      (fs : List File) (want : ℤ) (scan : Scan)
      → IsScan fs 0 0 0 scan
      → after_scan j fs want scan ≡ no_episode
      → All Misses fs
  unfolding after_scan
  after_scan-no_episode fs want (found k) hit h = absurd (different h)
    where
      different : chosen k ≢ no_episode
      different h = cc
  after_scan-no_episode fs want (counted n v) scan h = scan.0

  -- An episode that chooseFileForEpisode refuses is one that no video of the torrent names.
  pub choose_file_for_episode-no_episode :
      (fs : List File) (want : ℤ)
      → choose_file_for_episode j fs want season ep ≡ no_episode
      → All Misses fs
  unfolding choose_file_for_episode
  choose_file_for_episode-no_episode fs want h =
      elim (Option-cases (wanted_index want (length fs))) [
        | inr (n, e) ↦ absurd (different n (sym (rw (e, choose_file_for_episode) refl) ∙ h))
        | inl e ↦ elim (Bool-cases (ltb_ℤ (pos 0) ep)) [
          | inl asked ↦
              after_scan-no_episode fs want (scan_episode j season ep 0 fs 0 0)
                (scan_episode-IsScan 0 fs 0 0)
                (sym (rw (e, choose_file_for_episode, asked) refl) ∙ h)
          | inr film ↦ absurd (
              choose_file-ne-no_episode fs want
                (sym (rw (e, choose_file_for_episode, film) refl) ∙ h))
        ]
      ]
    where
      different : (n : ℕ) → chosen n ≢ no_episode
      different n h = cc
