-- ===== src/Security/Recovery.antt =====
-- The list of recovery codes under `checkSecondFactor` (security.go).
use bitlab.Prelude.{
  ◌≡◌, ◌<◌, ◌++◌, refl, sym, ap, ◌∙◌, Bool, true, false, List, [], ◌∷◌, none, some, Bytes, bytes,
  bytes_eq, bytes_eq_iff, All, Bool-cases, Option-cases, inl, inr, ltb, length, keep_if, not, ◌==◌,
  some_inj,
}
use mathlib.Core.Path.{subst}
use mathlib.Core.Bool.{false≢true}
use mathlib.Core.Option.{none-ne-some}
use bitlab.Prelude.Int.{ℤ}
use bitlab.Prelude.Members.{All-append, All-append_left, All-append_right}
use bitlab.Store.Sessions.{Settings, set_setting}
use bitlab.Prelude.Trim.{trim_space}
use bitlab.Security.SecondFactor.{
  Codecs, accept_recovery, step_of_code, check_second_factor, spend, hash_recovery_code,
  recovery_hashes,
}
use bitlab.Security.OneUse.{get_setting-insert, check_empty, check_recovery}

-- Texts in ASCII, as the digests in hexadecimal are.
abbrev pub AreAscii : List Bytes → Type 0
AreAscii hashes = All (All (λ b. b < 128)) hashes

-- `encoding/json`: a list of texts in ASCII is read back from its JSON form.
abbrev pub ReadsListBack : Codecs → Type 0
ReadsListBack k =
    (hashes : List Bytes) → AreAscii hashes → k.decode_list (k.encode_list hashes) ≡ hashes

-- The second list is the first without its first entry that is equal to the text.
pub record IsSpent (want : Bytes) (before after : List Bytes) : Type 0 where
  pub earlier : List Bytes
  pub later : List Bytes
  pub found : before ≡ earlier ++ want ∷ later
  pub others : All (λ h. bytes_eq h want ≡ false) earlier
  pub left : after ≡ earlier ++ later

module _ (want x : Bytes) (hashes : List Bytes) where
  spend_hit : bytes_eq x want ≡ true → spend want (x ∷ hashes) ≡ some hashes
  unfolding spend
  spend_hit h = rw h refl

  spend_unknown :
      bytes_eq x want ≡ false → spend want hashes ≡ none → spend want (x ∷ hashes) ≡ none
  unfolding spend
  spend_unknown h e = rw (h, e, spend) refl

  spend_later :
      (left : List Bytes)
      → bytes_eq x want ≡ false
      → spend want hashes ≡ some left
      → spend want (x ∷ hashes) ≡ some (x ∷ left)
  unfolding spend
  spend_later left h e = rw (h, e, spend) refl

spend-IsSpent :
    (want : Bytes) (hashes left : List Bytes)
    → spend want hashes ≡ some left
    → IsSpent want hashes left
unfolding spend
spend-IsSpent want [] left h = absurd (none-ne-some left h)
spend-IsSpent want (x ∷ hashes) left h = elim (Bool-cases (bytes_eq x want)) [
  | inl hit ↦ record {
    earlier = [];
    later = hashes;
    found = ap (λ z. z ∷ hashes) ((bytes_eq_iff x want).0 hit);
    others = tt;
    left = some_inj (sym h ∙ spend_hit want x hashes hit);
  }
  | inr miss ↦ elim (Option-cases (spend want hashes)) [
    | inl unknown ↦ absurd (none-ne-some left (sym (spend_unknown want x hashes miss unknown) ∙ h))
    | inr (rest, known) ↦
        let deeper = spend-IsSpent want hashes rest known in
        record {
          earlier = x ∷ deeper.earlier;
          later = deeper.later;
          found = ap (◌∷◌ x) deeper.found;
          others = (miss, deeper.others);
          left =
              some_inj (sym h ∙ spend_later want x hashes rest miss known) ∙ ap (◌∷◌ x) deeper.left;
        }
  ]
]

spent-AreAscii :
    (want : Bytes) (before after : List Bytes)
    → IsSpent want before after
    → AreAscii before
    → AreAscii after
spent-AreAscii want before after i h =
    let all = subst AreAscii i.found h in
    subst AreAscii (sym i.left) (
      All-append (All (λ b. b < 128)) i.earlier i.later
        (All-append_left (All (λ b. b < 128)) i.earlier (want ∷ i.later) all)
        (All-append_right (All (λ b. b < 128)) i.earlier (want ∷ i.later) all).1)

module _ (k : Codecs) where
  written_list :
      (written : Bool) (left : List Bytes) (s s' : Settings)
      → ReadsListBack k
      → AreAscii left
      → set_setting written (bytes "totp_recovery") (k.encode_list left) s ≡ (true, s')
      → recovery_hashes k s' ≡ left
  unfolding set_setting recovery_hashes
  written_list true left s s' reads_back ascii h =
      subst (λ z. recovery_hashes k z ≡ left) (ap (λ r. r.1) h)
        (ap k.decode_list
            (get_setting-insert (bytes "totp_recovery") (bytes "[]") (k.encode_list left) s)
          ∙ reads_back left ascii)
  written_list false left s s' reads_back ascii h = absurd (false≢true (ap (λ r. r.0) h))

  accepted_spends :
      (written : Bool) (code : Bytes) (s s' : Settings)
      → ReadsListBack k
      → AreAscii (recovery_hashes k s)
      → accept_recovery k written code s ≡ (true, s')
      → IsSpent
          (hash_recovery_code k (k.upper (trim_space code)))
          (recovery_hashes k s)
          (recovery_hashes k s')
  unfolding accept_recovery
  accepted_spends written code s s' reads_back ascii h =
      elim (Bool-cases
        (ltb (length (keep_if (λ b. not (b == 45)) (k.upper (trim_space code)))) 8)) [
          | inl short ↦ absurd (false≢true (ap (λ r. r.0) (sym (accept_short short) ∙ h)))
          | inr long ↦
              elim (Option-cases
                (spend (hash_recovery_code k (k.upper (trim_space code))) (recovery_hashes k s))) [
                  | inl unknown ↦
                      absurd (false≢true (ap (λ r. r.0) (sym (accept_unknown long unknown) ∙ h)))
                  | inr (left, known) ↦
                      let want = hash_recovery_code k (k.upper (trim_space code)) in
                      let spent = spend-IsSpent want (recovery_hashes k s) left known in
                      subst (IsSpent want (recovery_hashes k s))
                        (sym (
                          written_list written left s s' reads_back
                            (spent-AreAscii want (recovery_hashes k s) left spent ascii)
                            (sym (accept_known long left known) ∙ h)))
                        spent
                ]
        ]
    where
      accept_short :
          ltb (length (keep_if (λ b. not (b == 45)) (k.upper (trim_space code)))) 8 ≡ true
          → accept_recovery k written code s ≡ (false, s)
      accept_short e = rw e refl

      accept_unknown :
          ltb (length (keep_if (λ b. not (b == 45)) (k.upper (trim_space code)))) 8 ≡ false
          → spend (hash_recovery_code k (k.upper (trim_space code))) (recovery_hashes k s) ≡ none
          → accept_recovery k written code s ≡ (false, s)
      accept_unknown e u = rw (e, u) refl

      accept_known :
          ltb (length (keep_if (λ b. not (b == 45)) (k.upper (trim_space code)))) 8 ≡ false
          → (left : List Bytes)
          → spend (hash_recovery_code k (k.upper (trim_space code))) (recovery_hashes k s)
            ≡ some left
          → accept_recovery k written code s
            ≡ set_setting written (bytes "totp_recovery") (k.encode_list left) s
      accept_known e left u = rw (e, u) refl

  -- Where a code that is not one of the window is accepted, the hashes stored are texts in ASCII, and
  -- the JSON form of such a list is read back: the hash of that code was stored, and the hashes stored
  -- then are those from before without the first that is equal to it, in their order.
  pub check_second_factor_spends :
      (written : Bool) (code : Bytes) (now : ℤ) (s s' : Settings)
      → ReadsListBack k
      → AreAscii (recovery_hashes k s)
      → step_of_code k (trim_space code) now s ≡ none
      → check_second_factor k written code now s ≡ (true, s')
      → IsSpent
          (hash_recovery_code k (k.upper (trim_space (trim_space code))))
          (recovery_hashes k s)
          (recovery_hashes k s')
  check_second_factor_spends written code now s s' reads_back ascii other passed =
      elim (Bool-cases (bytes_eq (trim_space code) [])) [
        | inl blank ↦
            absurd
              (false≢true (ap (λ r. r.0) (sym (check_empty k written code now s blank) ∙ passed)))
        | inr text ↦
            accepted_spends written (trim_space code) s s' reads_back ascii
              (sym (check_recovery k written code now s text other) ∙ passed)
      ]
