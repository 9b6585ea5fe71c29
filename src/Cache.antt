-- ===== src/Cache.antt =====
-- internal/cache/cache.go: the manifests of the targets that have run, and the files that decide
-- whether a target is up to date. JSON is a parameter.
use mathlib.Core.Option
use go_bake.Base.{
  Result, ok, err, ◌>>=◌, or_err, not, ◌||◌, nat_eq, ◌==◌, ℕ, Bool, true, false, Option, none, some,
  List, [], ◌∷◌, ◌++◌, map, Text, TextMap, bytes, contains, insert, sort_by, sort_texts,
  if◌then◌else◌,
}
use go_bake.System.{System, DirRead, FileRead, FileStat}

pub record Manifest : Type 0 where
  pub target_name : Text
  pub input_hash : Text
  pub input_hashes : TextMap Text
  pub output_paths : List Text
  pub output_mtimes : TextMap ℕ

-- encoding/json on manifests.
pub record Codec : Type 0 where
  pub marshal : Manifest → Text
  pub unmarshal : Text → Option Manifest

-- filepath.Ext of a name without a slash.
unfoldable pub ext : Text → Text
ext [] = []
ext (c ∷ s) = elim (ext s) [ [] ↦ if nat_eq c b'.' then c ∷ s else [] | d ∷ e ↦ d ∷ e ]

module _ (sys : System) where
  -- Key
  unfoldable pub key : Text → Text → Text → Text
  key target_name input_hash step_sig =
      sys.hex (sys.sha256 (target_name ++ (input_hash ++ step_sig)))

  -- The loop of HashFilesMap: what the hash is fed, and the hash of each file.
  unfoldable pub hash_all : Text → List Text → sys.World → Result (Text × TextMap Text)
  hash_all root [] w = ok ([], [])
  hash_all root (f ∷ files) w = elim (sys.read_file (sys.join root f) w) [
    | FileRead.not_exist ↦ err f
    | FileRead.failed e ↦ err e
    | FileRead.contents c ↦ do
      rest ← hash_all root files w
      ok (f ++ (sys.sha256 c ++ rest.0), (f, sys.hex (sys.sha256 c)) ∷ rest.1)
  ]

  -- HashFilesMap; HashFiles is its first part.
  unfoldable pub hash_files_map : Text → List Text → sys.World → Result (Text × TextMap Text)
  unfolding hash_all sort_by
  hash_files_map root files w = do
    fed ← hash_all root (sort_texts files) w
    ok (sys.sha256 (sys.sha256 fed.0), fed.1)

  -- The paths that are not seen yet; `out` is in the order of their first occurrence.
  unfoldable pub add_unseen : List Text → List Text → List Text
  unfolding contains
  add_unseen [] out = out
  add_unseen (r ∷ rs) out = add_unseen rs (if contains out r then out else out ++ r ∷ [])

  abbrev rel_or_empty : Text → Text → Text
  rel_or_empty root p = elim (sys.rel root p) [ none ↦ [] | some r ↦ r ]

  -- The paths that one match of a pattern stands for.
  unfoldable pub match_paths : Text → Text → sys.World → Result (List Text)
  match_paths root m w = do
    r ← or_err m (sys.rel root m)
    elim (sys.stat m w) [
      | FileStat.not_exist ↦ ok []
      | FileStat.failed e ↦ err e
      | FileStat.directory t ↦ do
        paths ← or_err m (sys.walk m w)
        ok (map (rel_or_empty root) paths)
      | FileStat.file t ↦ ok (r ∷ [])
    ]

  unfoldable pub add_matches : Text → List Text → List Text → sys.World → Result (List Text)
  unfolding match_paths add_unseen
  add_matches root [] out w = ok out
  add_matches root (m ∷ ms) out w = do
    paths ← match_paths root m w
    add_matches root ms (add_unseen paths out) w

  unfoldable pub add_patterns : Text → List Text → List Text → sys.World → Result (List Text)
  unfolding add_matches
  add_patterns root [] out w = ok out
  add_patterns root (p ∷ ps) out w = do
    found ← or_err p (sys.glob (sys.join root p) w)
    out' ← add_matches root found out w
    add_patterns root ps out' w

  unfoldable pub resolve_globs : Text → List Text → sys.World → Result (List Text)
  unfolding add_patterns sort_by
  resolve_globs root patterns w = do out ← add_patterns root patterns [] w; ok (sort_texts out)

  unfoldable pub cache_dir : Text → Text
  unfolding bytes
  cache_dir root = sys.join root (bytes ".bake/cache")

  unfoldable pub manifest_path : Text → Text → Text
  unfolding cache_dir bytes
  manifest_path root k = sys.join (cache_dir root) (k ++ bytes ".json")

  -- OutputsExist: an error other than that the path does not exist counts as there.
  abbrev pub is_missing : FileStat → Bool
  is_missing FileStat.not_exist = true
  is_missing (FileStat.failed e) = false
  is_missing (FileStat.directory t) = false
  is_missing (FileStat.file t) = false

  unfoldable pub missing_outputs : Text → List Text → sys.World → List Text
  missing_outputs root [] w = []
  missing_outputs root (p ∷ ps) w =
      if is_missing (sys.stat (sys.join root p) w)
      then p ∷ missing_outputs root ps w
      else missing_outputs root ps w

  unfoldable pub outputs_exist : Text → List Text → sys.World → Bool
  unfolding missing_outputs
  outputs_exist root paths w = elim (missing_outputs root paths w) [ [] ↦ true | p ∷ ps ↦ false ]

  abbrev mtime : FileStat → Option ℕ
  mtime FileStat.not_exist = none
  mtime (FileStat.failed e) = none
  mtime (FileStat.directory t) = some t
  mtime (FileStat.file t) = some t

  -- RecordOutputMTimes
  unfoldable pub record_output_mtimes :
      Text → List Text → TextMap ℕ → sys.World → Option (TextMap ℕ)
  unfolding insert Option.bind
  record_output_mtimes root [] out w = some out
  record_output_mtimes root (p ∷ ps) out w =
      Option.bind (mtime (sys.stat (sys.join root p) w))
        λ t. record_output_mtimes root ps (insert p t out) w

  -- A file that is written unless its directory could not be made.
  unfoldable pub write_behind : Text → Text → Option Text × sys.World → Option Text × sys.World
  write_behind path text (some message, w) = (some message, w)
  write_behind path text (none, w) = sys.write_file path text w

  module _ (json : Codec) where
    -- A file that does not exist is no manifest, and no error.
    unfoldable pub read_manifest : Text → FileRead → Result (Option Manifest)
    read_manifest k FileRead.not_exist = ok none
    read_manifest k (FileRead.failed e) = err e
    read_manifest k (FileRead.contents c) = or_err k (Option.map some (json.unmarshal c))

    unfoldable pub load_manifest : Text → Text → sys.World → Result (Option Manifest)
    unfolding read_manifest
    load_manifest root k w = read_manifest k (sys.read_file (manifest_path root k) w)

    abbrev named : Text → Option Manifest → Option Manifest → Option Manifest
    named name none rest = rest
    named name (some m) rest = if m.target_name == name then some m else rest

    abbrev manifest_at : Text → sys.World → Option Manifest
    manifest_at path w = elim (sys.read_file path w) [
      | FileRead.not_exist ↦ none
      | FileRead.failed e ↦ none
      | FileRead.contents c ↦ json.unmarshal c
    ]

    -- The first manifest of a target; a file that cannot be read or parsed is passed over.
    unfoldable pub find_manifest : Text → Text → List (Text × Bool) → sys.World → Option Manifest
    unfolding ext bytes ◌==◌
    find_manifest dir name [] w = none
    find_manifest dir name ((file, is_dir) ∷ files) w =
        let rest = find_manifest dir name files w in
        if is_dir || not (ext file == bytes ".json")
        then rest
        else named name (manifest_at (sys.join dir file) w) rest

    unfoldable pub load_manifest_for_target : Text → Text → sys.World → Result (Option Manifest)
    unfolding cache_dir find_manifest
    load_manifest_for_target root name w = elim (sys.read_dir (cache_dir root) w) [
      | DirRead.not_exist ↦ ok none
      | DirRead.failed e ↦ err e
      | DirRead.entries files ↦ ok (find_manifest (cache_dir root) name files w)
    ]

    unfoldable pub save_manifest : Text → Text → Manifest → sys.World → Option Text × sys.World
    save_manifest root k m w =
        write_behind (manifest_path root k) (json.marshal m) (sys.make_dirs (cache_dir root) w)
