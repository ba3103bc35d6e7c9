-- ===== src/PortMux/Routing.antt =====
-- The classification of a connection by `sniff`, and the pause between failed accepts (portmux.go).
use bitlab.Prelude.{
  ℕ, zero, suc, ◌≤◌, ◌≡◌, refl, sym, Bool, true, false, inl, inr, [], ◌∷◌, ◌++◌, none, some, Bytes,
  bytes_eq, has_prefix, length, leb, any, Bool-cases, arith,
}
use mathlib.Core.Path.{subst}
use mathlib.Core.Bool.{false≢true}
use mathlib.Core.List.{append_assoc, append-nil}
use bitlab.PortMux.Sniff.{
  http, torrent, http_methods, is_method, is_possible, Sniffed, match_methods, sniff, next_backoff,
  backoff_after,
}
use bitlab.PortMux.Replay.{IsRight, AllSniffed, sniff-IsRight}
use bitlab.PortMux.Methods.{any_prefix, any_split, method_possible, method-OpensWeb, buf_short}

-- The classification.
abbrev pub goes_to_web : Sniffed → Bool
goes_to_web none = false
goes_to_web (some (http, _, _)) = true
goes_to_web (some (torrent, _, _)) = false

match_methods_hit :
    (buf rest : Bytes) → is_method buf ≡ true → match_methods buf rest ≡ some (http, buf, rest)
unfolding match_methods
match_methods_hit buf [] h = rw h refl
match_methods_hit buf (b ∷ rest) h = rw h refl

match_methods_on :
    (buf rest : Bytes) (b : ℕ)
    → is_method buf ≡ false
    → is_possible buf ≡ true
    → leb 8 (length buf) ≡ false
    → match_methods buf (b ∷ rest) ≡ match_methods (buf ++ b ∷ []) rest
unfolding match_methods
match_methods_on buf rest b other possible short = rw (other, possible, short) refl

-- A method is read whole: none is longer than eight bytes.
match_methods_http :
    (buf s t : Bytes)
    → is_method (buf ++ s) ≡ true
    → goes_to_web (match_methods buf (s ++ t)) ≡ true
match_methods_http buf [] t h =
    rw (match_methods_hit buf t (subst (λ m. is_method m ≡ true) (append-nil buf) h)) refl
match_methods_http buf (b ∷ s) t h = elim (Bool-cases (is_method buf)) [
  | inl hit ↦ rw (match_methods_hit buf (b ∷ s ++ t) hit) refl
  | inr other ↦
      rw
        (match_methods_on buf (s ++ t) b other (method_possible buf (b ∷ s) h)
          (buf_short buf s b h))
        (match_methods_http (buf ++ b ∷ []) s t
          (subst (λ m. is_method m ≡ true) (sym (append_assoc buf (b ∷ []) s)) h))
]

sniff_method : (m t : Bytes) → is_method m ≡ true → goes_to_web (sniff (m ++ t)) ≡ true
unfolding sniff
sniff_method [] t h = absurd (false≢true (unfold is_method in unfold bytes_eq in h))
sniff_method (b ∷ m) t h = rw (method-OpensWeb (b ∷ m) h) (match_methods_http (b ∷ []) m t h)

sniffed_prefix :
    (c : Bytes) (r : Sniffed)
    → AllSniffed (IsRight c) r
    → goes_to_web r ≡ true
    → any (has_prefix c) http_methods ≡ true
sniffed_prefix c none right h = absurd (false≢true h)
sniffed_prefix c (some (http, buf, rest)) right h =
    subst (λ d. any (has_prefix d) http_methods ≡ true) right.0
      (any_prefix buf rest http_methods (unfold is_method in right.1))
sniffed_prefix c (some (torrent, buf, rest)) right h = absurd (false≢true h)

same_test : (a b : Bool) → (a ≡ true → b ≡ true) → (b ≡ true → a ≡ true) → a ≡ b
same_test true b f g = sym (f refl)
same_test false true f g = g refl
same_test false false f g = refl

-- A connection goes to the web side exactly when it begins with one of the methods of HTTP and the
-- space after it.
pub sniff_http : (c : Bytes) → goes_to_web (sniff c) ≡ any (has_prefix c) http_methods
sniff_http c =
    same_test (goes_to_web (sniff c)) (any (has_prefix c) http_methods)
      (sniffed_prefix c (sniff c) (sniff-IsRight c))
      (λ h.
        let (m, t, e, found) = any_split c http_methods h in
        subst (λ d. goes_to_web (sniff d) ≡ true) e (sniff_method m t (unfold is_method in found)))

-- The pause between failed accepts stays below two seconds.
pub backoff_after-le : (n : ℕ) → backoff_after n ≤ 2_000_000_000
unfolding backoff_after next_backoff
backoff_after-le zero = omega arith
backoff_after-le (suc n) = ground (arith, backoff_after-le n)
