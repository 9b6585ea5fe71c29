-- ===== src/Runner/Cached/Found.antt =====
-- What runTargetWithCache of internal/runner/runner.go knows before it runs a target, and the
-- manifest of an earlier run.
use go_bake.Base.{
  Result, ok, ◌>>=◌, >>=-eq-ok, ◌≡◌, refl, ap, ◌∙◌, true, Option, none, some, List, Text, TextMap,
  ==_refl,
}
use go_bake.Config.{Target}
use go_bake.System.{System, FileRead}
use go_bake.Cache.{
  Manifest, Codec, key, hash_files_map, resolve_globs, load_manifest, read_manifest, save_manifest,
  manifest_path, cache_dir, write_behind, outputs_exist,
}
use go_bake.Runner.Steps.{RunOptions}
use go_bake.Runner.Cached.{Prepared, expanded, look_up, prepare, up_to_date, step_signature}

-- The hash of the inputs of a target, and of each of them.
abbrev pub input_state :
    (sys : System) → Target → RunOptions → sys.World → Result (Text × TextMap Text)
input_state sys tgt opts w = do
  files ← resolve_globs sys opts.root_dir (expanded sys opts tgt.inputs) w
  hash_files_map sys opts.root_dir files w

-- What has been written to a file is read from it.
abbrev pub ReadsBack : System → Type 0
ReadsBack sys =
    (path text : Text) (w : sys.World)
    → (sys.write_file path text w).0 ≡ none
    → sys.read_file path (sys.write_file path text w).1 ≡ FileRead.contents text

module _ (sys : System) (json : Codec) (tgt : Target) (dotenv : TextMap Text)
    (opts : RunOptions) where
  unfoldable pub key_of : Text → Text
  key_of h = key sys tgt.name h (step_signature sys tgt dotenv opts)

  pub prepare_inputs :
      (w : sys.World) (p : Prepared)
      → prepare sys json tgt dotenv opts w ≡ ok p
      → (h : Text × TextMap Text) × (input_state sys tgt opts w ≡ ok h)
        × (look_up sys json tgt dotenv opts w h ≡ ok p)
  unfolding prepare
  prepare_inputs w p e =
      let hash : List Text → Result (Text × TextMap Text) =
        λ files. hash_files_map sys opts.root_dir files w in
      let outputs = resolve_globs sys opts.root_dir (expanded sys opts tgt.outputs) w in
      let (files, e₁, rest₁) =
        >>=-eq-ok (resolve_globs sys opts.root_dir (expanded sys opts tgt.inputs) w)
          (λ files. outputs >>= λ out. hash files >>= look_up sys json tgt dotenv opts w) e in
      let (out, e₂, rest₂) =
        >>=-eq-ok outputs (λ out. hash files >>= look_up sys json tgt dotenv opts w) rest₁ in
      let (h, e₃, rest₃) = >>=-eq-ok (hash files) (look_up sys json tgt dotenv opts w) rest₂ in
      (h, rw e₁ e₃, rest₃)

  pub prepare_again :
      (w : sys.World) (h : Text × TextMap Text) (paths : List Text)
      → input_state sys tgt opts w ≡ ok h
      → resolve_globs sys opts.root_dir (expanded sys opts tgt.outputs) w ≡ ok paths
      → prepare sys json tgt dotenv opts w ≡ look_up sys json tgt dotenv opts w h
  unfolding prepare
  prepare_again w h paths e f =
      let (files, e₁, e₂) =
        >>=-eq-ok (resolve_globs sys opts.root_dir (expanded sys opts tgt.inputs) w)
          (λ files. hash_files_map sys opts.root_dir files w) e in
      rw e₁ (rw f (rw e₂ refl))

  pub look_up_found :
      (w : sys.World) (h : Text × TextMap Text) (m : Manifest)
      → load_manifest sys json opts.root_dir (key_of h.0) w ≡ ok (some m)
      → look_up sys json tgt dotenv opts w h
        ≡ ok (record {
          input_hash = h.0;
          input_hashes = h.1;
          cache_key = key_of h.0;
          manifest = some m;
        })
  unfolding look_up key_of
  look_up_found w h m e = rw e refl

  pub look_up_key :
      (w : sys.World) (h : Text × TextMap Text) (p : Prepared)
      → look_up sys json tgt dotenv opts w h ≡ ok p
      → (p.input_hash ≡ h.0) × (p.cache_key ≡ key_of h.0)
  unfolding look_up key_of
  look_up_key w h p e =
      let (found, _, same) = >>=-eq-ok (load_manifest sys json opts.root_dir (key_of h.0) w) _ e in
      (cc, cc)

  write_behind-Reads :
      (path text : Text) (r : Option Text × sys.World)
      → ReadsBack sys
      → (write_behind sys path text r).0 ≡ none
      → sys.read_file path (write_behind sys path text r).1 ≡ FileRead.contents text
  unfolding write_behind
  write_behind-Reads path text (some message, w) law e = cc
  write_behind-Reads path text (none, w) law e = law path text w e

  read_manifest-contents :
      (k text : Text) (m : Manifest)
      → json.unmarshal text ≡ some m
      → read_manifest sys json k (FileRead.contents text) ≡ ok (some m)
  unfolding read_manifest
  read_manifest-contents k text m e = rw e refl

  pub load-save :
      (k : Text) (m : Manifest) (w : sys.World)
      → ReadsBack sys
      → json.unmarshal (json.marshal m) ≡ some m
      → (save_manifest sys json opts.root_dir k m w).0 ≡ none
      → load_manifest sys json opts.root_dir k (save_manifest sys json opts.root_dir k m w).1
        ≡ ok (some m)
  unfolding save_manifest load_manifest
  load-save k m w law coded e =
      ap (read_manifest sys json k) (
        write_behind-Reads (manifest_path sys opts.root_dir k) (json.marshal m)
          (sys.make_dirs (cache_dir sys opts.root_dir) w) law e)
      ∙ read_manifest-contents k (json.marshal m) m coded

  pub up_to_date-found :
      (p : Prepared) (m : Manifest) (w : sys.World)
      → p.manifest ≡ some m
      → m.input_hash ≡ sys.hex p.input_hash
      → outputs_exist sys opts.root_dir m.output_paths w ≡ true
      → up_to_date sys json opts.root_dir p w ≡ true
  unfolding up_to_date
  up_to_date-found p m w e same there = rw e (rw same (rw (==_refl (sys.hex p.input_hash)) there))
