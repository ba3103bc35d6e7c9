-- ===== src/WireGuard/Load.antt =====
-- wireguard.go: `loadWireGuardConf`. The files, as `os` and `path/filepath` show them while it runs,
-- are in `Files`.
use bitlab.Prelude.{
  ◌||◌, not, Bool, List, [], ◌∷◌, Option, none, some, Bytes, bytes, bytes_eq, if◌then◌else◌,
}
use bitlab.Prelude.Trim.{trim_space}
use bitlab.Prelude.Search.{has_text}

pub record Files : Type 0 where
  pub stat : Bytes → Bool
  pub read_file : Bytes → Option Bytes
  pub join : Bytes → Bytes → Bytes

module _ (files : Files) where
  -- The loop over the candidates.
  unfoldable pub first_candidate : List Bytes → Bytes
  unfolding bytes_eq
  first_candidate [] = []
  first_candidate (p ∷ ps) =
      let next = first_candidate ps in
      if files.stat p
      then elim (files.read_file p) [ none ↦ next | some b ↦ if bytes_eq b [] then next else b ]
      else next

  -- `loadWireGuardConf`; `none` is its error.
  unfoldable pub load_conf : Bytes → Bytes → Option Bytes
  unfolding first_candidate trim_space has_text bytes_eq
  load_conf text data_dir =
      let raw = trim_space text in
      let as_file : Option Bytes = elim (files.read_file raw) [
        | none ↦ some raw
        | some b ↦ some b
      ] in
      if not (bytes_eq raw [])
      then (if files.stat raw
          then files.read_file raw
          else (if has_text raw (bytes "[") || has_text raw (bytes "\n")
              then some raw
              else as_file))
      else some (
          first_candidate (
            files.join data_dir (bytes "wireguard.conf")
            ∷ files.join data_dir (bytes "wg0.conf")
            ∷ []))
