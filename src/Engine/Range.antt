-- ===== src/Engine/Range.antt =====
-- The position of `sizedReader` under its calls (engine.go).
use bitlab.Prelude.{
  ℕ, ◌<◌, ◌+◌, ◌-◌, ◌^◌, ◌≡◌, ◌≤◌, refl, ◌∙◌, sym, ap, Bool, false, ◌&&◌, inl, inr, ltb, Bool-cases,
  Option-cases, arith,
}
use mathlib.Core.Path.{subst}
use bitlab.Prelude.Int.{
  ℤ, pos, negsuc, ◌+ℤ◌, ◌-ℤ◌, ◌≤ℤ◌, ltb_ℤ, leb_ℤ, add64, sub64, InInt64, add64_exact, sub64_exact,
}
use bitlab.Engine.Reader.{
  SizedReader, ReadResult, end_of_file, read_bytes, clip, advance, target_of, aim_of, read, seek_to,
  seek, Step, reads, seeks,
}

-- The position lies between the start and the end of the file, and the reader below stands there.
pub record InFile (s : SizedReader) : Type 0 where
  pub fits : InInt64 s.size
  pub from_start : pos 0 ≤ℤ s.position
  pub to_end : s.position ≤ℤ s.size
  pub together : s.source_at ≡ s.position

left_exact : (a b : ℕ) → a < 2 ^ 63 → b ≤ a → sub64 (pos a) (pos b) ≡ pos (a - b)
left_exact a b fits le = sub64_exact (pos a) (pos b) (rw exact (omega arith)) ∙ exact
  where
    exact : pos a -ℤ pos b ≡ pos (a - b)
    exact = unfold ◌-ℤ◌ in ground arith

sum_exact : (b n : ℕ) → b + n < 2 ^ 63 → add64 (pos b) (pos n) ≡ pos (b + n)
sum_exact b n fits = add64_exact (pos b) (pos n) (rw exact fits) ∙ exact
  where
    exact : pos b +ℤ pos n ≡ pos (b + n)
    exact = unfold ◌+ℤ◌ in ground arith

clip-le : (len m n : ℕ) → n ≤ clip len (pos m) → (n ≤ len) × (n ≤ m)
unfolding clip
clip-le len m n h = ground arith

-- Of a buffer clipped to what is left, no count leads past the end.
clip_room :
    (len n : ℕ) (size position : ℤ)
    → InInt64 size
    → pos 0 ≤ℤ position
    → position ≤ℤ size
    → n ≤ clip len (sub64 size position)
    → (pos 0 ≤ℤ add64 position (pos n)) × (add64 position (pos n) ≤ℤ size)
clip_room len n (pos a) (pos b) fits lo hi h =
    let room =
      clip-le len (a - b) n (subst (λ z. n ≤ clip len z) (left_exact a b fits (omega arith)) h) in
    rw (sum_exact b n (omega (arith, room.1))) (omega arith, omega (arith, room.1))
clip_room len n (pos a) (negsuc b) fits lo hi h = ground arith
clip_room len n (negsuc a) (pos b) fits lo hi h = ground arith
clip_room len n (negsuc a) (negsuc b) fits lo hi h = ground arith

clip_exact :
    (len n : ℕ) (size position : ℤ)
    → InInt64 size
    → pos 0 ≤ℤ position
    → position ≤ℤ size
    → n ≤ clip len (sub64 size position)
    → (n ≤ len) × (add64 position (pos n) ≡ position +ℤ pos n)
clip_exact len n (pos a) (pos b) fits lo hi h =
    let room =
      clip-le len (a - b) n (subst (λ z. n ≤ clip len z) (left_exact a b fits (omega arith)) h) in
    (room.0, sum_exact b n (omega (arith, room.1)) ∙ sym (unfold ◌+ℤ◌ in ground arith))
clip_exact len n (pos a) (negsuc b) fits lo hi h = ground arith
clip_exact len n (negsuc a) (pos b) fits lo hi h = ground arith
clip_exact len n (negsuc a) (negsuc b) fits lo hi h = ground arith

abbrev pub count_of : ReadResult → ℕ
count_of end_of_file = 0
count_of (read_bytes n fine) = n

advance_eq :
    (has_access : Bool) (now : ℤ) (r : ℕ × Bool) (s : SizedReader)
    → (count_of (advance has_access now r s).0 ≡ r.0)
      × ((advance has_access now r s).2.position ≡ add64 s.position (pos r.0))
unfolding advance
advance_eq has_access now (n, fine) s =
    elim (Bool-cases
      (ltb 0 n && (has_access && leb_ℤ (pos 2_000_000_000) (now -ℤ s.last_access)))) [
        | inl t ↦ rw t (refl, refl)
        | inr f ↦ rw f (refl, refl)
      ]

advance-InFile :
    (has_access : Bool) (now : ℤ) (len : ℕ) (r : ℕ × Bool) (s : SizedReader)
    → r.0 ≤ clip len (sub64 s.size s.position)
    → InFile s
    → InFile (advance has_access now r s).2
unfolding advance
advance-InFile has_access now len (n, fine) s small h =
    let room = clip_room len n s.size s.position h.fits h.from_start h.to_end small in
    elim (Bool-cases
      (ltb 0 n && (has_access && leb_ℤ (pos 2_000_000_000) (now -ℤ s.last_access)))) [
        | inl t ↦ rw t (in_file room.0 room.1)
        | inr f ↦ rw f (in_file room.0 room.1)
      ]
  where
    in_file :
        {at : ℤ}
        → pos 0 ≤ℤ add64 s.position (pos n)
        → add64 s.position (pos n) ≤ℤ s.size
        → InFile (record s {
          position = add64 s.position (pos n);
          source_at = add64 s.source_at (pos n);
          last_access = at;
        })
    in_file lo hi = record {
      fits = h.fits;
      from_start = lo;
      to_end = hi;
      together = ap (λ p. add64 p (pos n)) h.together;
    }

aim_of-range :
    (target : ℤ) (s : SizedReader)
    → pos 0 ≤ℤ s.size
    → ltb_ℤ target (pos 0) ≡ false
    → (pos 0 ≤ℤ aim_of target s) × (aim_of target s ≤ℤ s.size)
unfolding aim_of
aim_of-range target s start up = elim (Bool-cases (ltb_ℤ s.size target)) [
  | inl past ↦ rw past (start, omega arith)
  | inr within ↦ rw within (ground arith, ground arith)
]

module _ (source_seek : ℤ → Bool) where
  seek_to-InFile :
      (source_read : ℤ → ℕ → ℕ × Bool) (target : ℤ) (s : SizedReader)
      → InFile s
      → InFile (seek_to source_read source_seek target s).1
  unfolding seek_to
  seek_to-InFile source_read target s h = elim (Bool-cases (ltb_ℤ target (pos 0))) [
    | inl below ↦ rw below h
    | inr up ↦
        let aim = aim_of target s in
        elim (Bool-cases (leb_ℤ aim s.position && leb_ℤ s.position aim)) [
          | inl there ↦ rw (up, there) h
          | inr away ↦ elim (Bool-cases (source_seek aim)) [
            | inl moved ↦
                rw (up, away, moved)
                  (arrived (aim_of-range target s (ground (arith, h.from_start, h.to_end)) up))
            | inr failed ↦ rw (up, away, failed) h
          ]
        ]
  ]
    where
      arrived :
          (pos 0 ≤ℤ aim_of target s) × (aim_of target s ≤ℤ s.size)
          → InFile (record s { position = aim_of target s; source_at = aim_of target s })
      arrived r = record { fits = h.fits; from_start = r.0; to_end = r.1; together = refl }

-- `io.Reader`: no more bytes than the buffer holds.
abbrev pub IsReader : (ℤ → ℕ → ℕ × Bool) → Type 0
IsReader source_read = (at : ℤ) (len : ℕ) → (source_read at len).0 ≤ len

module _ (source_read : ℤ → ℕ → ℕ × Bool) (source_seek : ℤ → Bool)
    (is_reader : IsReader source_read) where
  read-InFile :
      (has_access : Bool) (now : ℤ) (len : ℕ) (s : SizedReader)
      → InFile s
      → InFile (read source_read source_seek has_access now len s).2
  unfolding read
  read-InFile has_access now len s h = elim (Bool-cases (leb_ℤ s.size s.position)) [
    | inl done ↦ rw done h
    | inr more ↦ rw more (
        advance-InFile has_access now len
          (source_read s.source_at (clip len (sub64 s.size s.position))) s
          (is_reader s.source_at (clip len (sub64 s.size s.position))) h)
  ]

  seek-InFile :
      (off : ℤ) (whence : ℕ) (s : SizedReader)
      → InFile s
      → InFile (seek source_read source_seek off whence s).1
  unfolding seek
  seek-InFile off whence s h = elim (Option-cases (target_of off whence s)) [
    | inl bad ↦ rw (bad, seek) h
    | inr (target, ok) ↦ rw (ok, seek) (seek_to-InFile source_seek source_read target s h)
  ]

  -- Whatever calls of Read and Seek are made on a reader that stands inside its file, with a reader
  -- below it that gives no more bytes than the buffer holds: it stays inside the file, and the
  -- reader below stands at its position.
  pub Step-InFile : {s s' : SizedReader} → Step source_read source_seek s s' → InFile s → InFile s'
  Step-InFile (reads has_access now len {s}) h = read-InFile has_access now len s h
  Step-InFile (seeks off whence {s}) h = seek-InFile off whence s h

  -- With such a reader below it: Read gives no more bytes than the buffer holds, and the position
  -- moves on by the bytes that it gives.
  pub read_counts :
      (has_access : Bool) (now : ℤ) (len : ℕ) (s : SizedReader)
      → InFile s
      → (count_of (read source_read source_seek has_access now len s).0 ≤ len)
        × ((read source_read source_seek has_access now len s).2.position
            ≡ s.position +ℤ pos (count_of (read source_read source_seek has_access now len s).0))
  unfolding read
  read_counts has_access now len s h = elim (Bool-cases (leb_ℤ s.size s.position)) [
    | inl done ↦ rw done (omega arith, unfold ◌+ℤ◌ in ground arith)
    | inr more ↦
        let r = source_read s.source_at (clip len (sub64 s.size s.position)) in
        let counted = advance_eq has_access now r s in
        let exact =
          clip_exact len r.0 s.size s.position h.fits h.from_start h.to_end
            (is_reader s.source_at (clip len (sub64 s.size s.position))) in
        rw (more, counted.0) (exact.0, counted.1 ∙ exact.1)
  ]
