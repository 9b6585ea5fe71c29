-- ===== src/Runner/Why.antt =====
-- internal/runner/why.go: why a target would run. A reason is a constructor with what its lines
-- print. An empty map of hashes is a nil one: SaveManifest leaves it out of the file.
pub mod Agrees
mod Tests
use go_bake.Base.{
  Result, ok, err, ◌>>=◌, Bool, true, false, ◌||◌, Option, none, some, List, [], ◌∷◌, ◌++◌, Text,
  TextMap, bytes, lookup, sort_texts, sort_by, ◌==◌, if◌then◌else◌,
}
use go_bake.Config.{Target}
use go_bake.System.{System}
use go_bake.Resolve.Expand.{is_empty}
use go_bake.Cache.{
  Manifest, Codec, key, hash_files_map, resolve_globs, load_manifest, load_manifest_for_target,
  missing_outputs,
}
use go_bake.Runner.Steps.{RunOptions}
use go_bake.Runner.Cached.{expanded, step_signature}

pub data Reasons : Type 0 where
  always_runs no_entry hash_mismatch up_to_date : Reasons
  inputs_changed outputs_missing : List Text → Reasons

abbrev or_empty : Option Text → Text
or_empty none = []
or_empty (some h) = h

-- The inputs whose hash is not the one from before; one that was not there had the empty hash.
unfoldable pub changed_in : TextMap Text → TextMap Text → List Text
unfolding lookup ◌==◌
changed_in prev [] = []
changed_in prev ((p, h) ∷ cur) =
    let rest = changed_in prev cur in if or_empty (lookup p prev) == h then rest else p ∷ rest

abbrev is_none {ℓ} : {A : Type ℓ} → Option A → Bool
is_none none = true
is_none (some a) = false

unfoldable pub removed_from : TextMap Text → TextMap Text → List Text
unfolding lookup bytes
removed_from cur [] = []
removed_from cur ((p, h) ∷ prev) =
    let rest = removed_from cur prev in
    if is_none (lookup p cur) then (p ++ bytes " (removed)") ∷ rest else rest

unfoldable pub changed_inputs : TextMap Text → TextMap Text → List Text
unfolding changed_in removed_from sort_by
changed_inputs prev cur = sort_texts (changed_in prev cur ++ removed_from cur prev)

-- The reason for changes from a map of hashes, or the other one if there are none.
abbrev pub because : List Text → Reasons → Reasons
because [] other = other
because (p ∷ ps) other = inputs_changed (p ∷ ps)

-- Without a manifest under the key: what has changed since another run.
unfoldable pub without_entry : Result (Option Manifest) → TextMap Text → Reasons
unfolding changed_inputs
without_entry (err e) cur = no_entry
without_entry (ok none) cur = no_entry
without_entry (ok (some m)) cur =
    if is_empty m.input_hashes
    then no_entry
    else because (changed_inputs m.input_hashes cur) no_entry

abbrev pub of_missing : List Text → Reasons
of_missing [] = up_to_date
of_missing (p ∷ ps) = outputs_missing (p ∷ ps)

module _ (sys : System) (json : Codec) where
  unfoldable pub judge :
      Target → RunOptions → sys.World → Text × TextMap Text → Option Manifest → Reasons
  unfolding without_entry load_manifest_for_target changed_inputs missing_outputs ◌==◌
  judge tgt opts w hashed none =
      without_entry (load_manifest_for_target sys json opts.root_dir tgt.name w) hashed.1
  judge tgt opts w hashed (some m) =
      if m.input_hash == sys.hex hashed.0
      then of_missing (missing_outputs sys opts.root_dir m.output_paths w)
      else because (changed_inputs m.input_hashes hashed.1) hash_mismatch

  unfoldable pub why_cached : Target → TextMap Text → RunOptions → sys.World → Result Reasons
  unfolding resolve_globs hash_files_map key step_signature load_manifest judge
  why_cached tgt dotenv opts w = do
    files ← resolve_globs sys opts.root_dir (expanded sys opts tgt.inputs) w
    hashed ← hash_files_map sys opts.root_dir files w
    found ←
        load_manifest sys json opts.root_dir
          (key sys tgt.name hashed.0 (step_signature sys tgt dotenv opts)) w
    ok (judge tgt opts w hashed found)

  unfoldable pub why_reasons : Target → TextMap Text → RunOptions → sys.World → Result Reasons
  unfolding why_cached
  why_reasons tgt dotenv opts w =
      if is_empty tgt.inputs || is_empty tgt.outputs
      then ok always_runs
      else why_cached tgt dotenv opts w
