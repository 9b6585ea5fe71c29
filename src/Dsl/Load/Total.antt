-- ===== src/Dsl/Load/Total.antt =====
-- Loading ends: each nested load is of one more of the files that parse.
use go_bake.Base.{
  ℕ, zero, suc, ◌≤◌, ◌<◌, ◌≡◌, ◌≢◌, refl, false, Bool-cases, inl, inr, Option, none, some, List, [],
  ◌∷◌, Text, Has, contains, contains-cons, length, ==_iff, arith, if◌then◌else◌,
}
use go_bake.Config.{File}
use go_bake.Config.Validate.{ValidationError, validate}
use go_bake.Dsl.Ast.{Bakefile}
use go_bake.Dsl.Load
use go_bake.Dsl.Load.{
  Files, Loaded, ok, failed, out_of_fuel, ◌>>=◌, or_fail, wrap, validated, compile, append_file,
  merge_imports, finish_imports, finish, load_with_imports,
}

-- The number of files that are not being loaded.
waiting : List Text → List Text → ℕ
waiting [] v = 0
waiting (f ∷ fs) v = if contains v f then waiting fs v else suc (waiting fs v)

waiting-le_length : (fs v : List Text) → waiting fs v ≤ length fs
unfolding waiting
waiting-le_length [] v = omega arith
waiting-le_length (f ∷ fs) v = ground (arith, waiting-le_length fs v)

waiting-cons-le : (fs v : List Text) (p : Text) → waiting fs (p ∷ v) ≤ waiting fs v
unfolding waiting
waiting-cons-le [] v p = omega arith
waiting-cons-le (f ∷ fs) v p = ground (arith, contains-cons p v f, waiting-cons-le fs v p)

waiting-cons-lt :
    (fs v : List Text) (p : Text)
    → Has fs p
    → contains v p ≡ false
    → waiting fs (p ∷ v) < waiting fs v
unfolding waiting contains
waiting-cons-lt [] v p m n = absurd (ground arith)
waiting-cons-lt (f ∷ fs) v p m n =
    ground (arith, ==_iff f p, ==_iff p f, waiting-cons-le fs v p, waiting-cons-lt fs v p)

>>=-total {ℓ κ} :
    {A : Type ℓ} {B : Type κ} (m : Loaded A) (f : A → Loaded B)
    → m ≢ out_of_fuel
    → ((a : A) → f a ≢ out_of_fuel)
    → (m >>= f) ≢ out_of_fuel
>>=-total (ok a) f h k = k a
>>=-total (failed e) f h k = λ p. cc
>>=-total out_of_fuel f h k = λ p. h refl

validated-total : (cfg : File) → validated cfg ≢ out_of_fuel
unfolding validated
validated-total cfg = go (validate cfg)
  where
    go :
        (errs : List ValidationError)
        → elim errs [ [] ↦ ok cfg | e ∷ es ↦ failed (Load.invalid (e ∷ es)) ] ≢ out_of_fuel
    go [] p = cc
    go (e ∷ es) p = cc

wrap-total : {A : Type 0} (imp : Text) (m : Loaded A) → m ≢ out_of_fuel → wrap imp m ≢ out_of_fuel
wrap-total imp (ok a) h p = cc
wrap-total imp (failed e) h p = cc
wrap-total imp out_of_fuel h p = h refl

module _ (fs : Files) where
  merge_imports-total :
      (load : Text → Loaded File)
      → ((path : Text) → load path ≢ out_of_fuel)
      → (root : Text) (imps : List Text) (merged : File)
      → merge_imports fs load root imps merged ≢ out_of_fuel
  unfolding merge_imports
  merge_imports-total load h root [] merged = λ p. cc
  merge_imports-total load h root (imp ∷ imps) merged =
      resolve (fs.abs (fs.join root imp)) (merge_imports-total load h root imps)
    where
      resolve :
          (o : Option Text)
          → ((m : File) → merge_imports fs load root imps m ≢ out_of_fuel)
          → (or_fail (Load.in_import imp (Load.resolve_path imp)) o >>= λ resolved.
              wrap imp (load resolved) >>= λ imported.
              merge_imports fs load root imps (append_file merged imported))
            ≢ out_of_fuel
      resolve none ih = λ p. cc
      resolve (some r) ih =
          >>=-total (wrap imp (load r))
            (λ imported. merge_imports fs load root imps (append_file merged imported))
            (wrap-total imp (load r) (h r)) (λ i. ih (append_file merged i))

  finish_imports-total :
      (load : Text → Loaded File)
      → ((path : Text) → load path ≢ out_of_fuel)
      → (cfg : File) (imps : List Text) → finish_imports fs load cfg imps ≢ out_of_fuel
  unfolding finish_imports
  finish_imports-total load h cfg [] = validated-total cfg
  finish_imports-total load h cfg (imp ∷ imps) =
      >>=-total (merge_imports fs load cfg.root_dir (imp ∷ imps) (record cfg { imports = [] }))
        validated
        (merge_imports-total load h cfg.root_dir (imp ∷ imps) (record cfg { imports = [] }))
        validated-total

  -- The files that can be loaded are among those listed.
  abbrev pub IsListed : List Text → Type 0
  IsListed files =
      (path p : Text) (ast : Bakefile)
      → fs.abs path ≡ some p
      → fs.parse path ≡ some ast
      → Has files p

  module _ (files : List Text) (listed : IsListed files) where
    load-total :
        (fuel : ℕ) (visited : List Text) (path : Text)
        → waiting files visited < fuel
        → load_with_imports fs fuel visited path ≢ out_of_fuel
    unfolding load_with_imports finish
    load-total zero visited path lt = absurd (omega arith)
    load-total (suc fuel) visited path lt = resolve (fs.abs path) refl (load-total fuel)
      where
        parsed :
            (p : Text) (o : Option Bakefile)
            → fs.abs path ≡ some p
            → fs.parse path ≡ o
            → contains visited p ≡ false
            → ((v : List Text) (q : Text)
                → waiting files v < fuel
                → load_with_imports fs fuel v q ≢ out_of_fuel)
            → (or_fail (Load.parse_error path) o >>= λ ast.
                finish fs (load_with_imports fs fuel (p ∷ visited)) path p ast)
              ≢ out_of_fuel
        parsed p none e f n ih = λ h. cc
        parsed p (some ast) e f n ih =
            finish_imports-total (load_with_imports fs fuel (p ∷ visited))
              (λ q.
                ih (p ∷ visited) q
                  (omega (arith, waiting-cons-lt files visited p (listed path p ast e f) n)))
              (record (compile ast) { bake_path = path; root_dir = fs.dir p }) (compile ast).imports

        resolve :
            (o : Option Text)
            → fs.abs path ≡ o
            → ((v : List Text) (q : Text)
                → waiting files v < fuel
                → load_with_imports fs fuel v q ≢ out_of_fuel)
            → (or_fail (Load.resolve_path path) o >>= λ p.
                if contains visited p
                then failed (Load.import_cycle path)
                else (or_fail (Load.parse_error path) (fs.parse path) >>= λ ast.
                    finish fs (load_with_imports fs fuel (p ∷ visited)) path p ast))
              ≢ out_of_fuel
        resolve none e ih = λ h. cc
        resolve (some p) e ih = elim (Bool-cases (contains visited p)) [
          | inl cycle ↦ rw cycle (λ h. cc)
          | inr n ↦ rw n (parsed p (fs.parse path) e refl n ih)
        ]

    -- Where the files that can be loaded are listed, loading ends with a file or an error: with one
    -- more unit of fuel than there are files, it does not run out.
    pub load_with_imports-total :
        (path : Text) → load_with_imports fs (suc (length files)) [] path ≢ out_of_fuel
    load_with_imports-total path =
        load-total (suc (length files)) [] path (omega (arith, waiting-le_length files []))
