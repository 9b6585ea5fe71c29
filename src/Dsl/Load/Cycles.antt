-- ===== src/Dsl/Load/Cycles.antt =====
-- A Bakefile loads only if its imports have no cycle, and what is loaded is valid.
use mathlib.Core.Path.{subst, subst₂}
use go_bake.Base.{
  ℕ, zero, suc, ◌≡◌, ◌≢◌, refl, sym, ◌∙◌, false, Bool-cases, inl, inr, Option, none, some, List, [],
  ◌∷◌, Text, Has, All, All-contains, contains, contains-cons, ==_refl, arith, if◌then◌else◌,
}
use go_bake.Config.{File}
use go_bake.Config.Validate.{ValidationError, validate}
use go_bake.Dsl.Ast.{Bakefile}
use go_bake.Dsl.Load
use go_bake.Dsl.Load.{
  Files, Loaded, ok, failed, out_of_fuel, ◌>>=◌, or_fail, wrap, validated, compile, append_file,
  merge_imports, finish_imports, finish, load_with_imports,
}

>>=-eq-ok {ℓ κ} :
    {A : Type ℓ} {C : Type κ} (run : Loaded A) (next : A → Loaded C) {c : C}
    → (run >>= next) ≡ ok c
    → (r : A) × (run ≡ ok r) × (next r ≡ ok c)
>>=-eq-ok (ok r) next passed = (r, refl, passed)
>>=-eq-ok (failed e) next passed = cc
>>=-eq-ok out_of_fuel next passed = cc

or_fail-eq-ok :
    {A : Type 0} (e : Load.LoadError) (o : Option A) {a : A} → or_fail e o ≡ ok a → o ≡ some a
or_fail-eq-ok e none h = cc
or_fail-eq-ok e (some a) h = cc

failed-ne-ok : {A : Type 0} {e : Load.LoadError} {a : A} → failed e ≢ ok a
failed-ne-ok h = cc

wrap-eq-ok : {A : Type 0} (imp : Text) (m : Loaded A) {a : A} → wrap imp m ≡ ok a → m ≡ ok a
wrap-eq-ok imp (ok a) h = h
wrap-eq-ok imp (failed e) h = cc
wrap-eq-ok imp out_of_fuel h = cc

some_same : {A : Type 0} {a b : A} → some a ≡ some b → a ≡ b
some_same e = cc

validated-eq-ok : (m cfg : File) → validated m ≡ ok cfg → (m ≡ cfg) × (validate m ≡ [])
unfolding validated
validated-eq-ok m cfg = go (validate m)
  where
    go :
        (errs : List ValidationError)
        → elim errs [ [] ↦ ok m | e ∷ es ↦ failed (Load.invalid (e ∷ es)) ] ≡ ok cfg
        → (m ≡ cfg) × (errs ≡ [])
    go [] h = (cc, refl)
    go (e ∷ es) h = cc

module _ (fs : Files) where
  -- The file at `path` imports the file at `q`.
  pub record Imports (path q : Text) : Type 0 where
    pub path_abs : Text
    pub resolved : fs.abs path ≡ some path_abs
    pub ast : Bakefile
    pub parsed : fs.parse path ≡ some ast
    pub imp : Text
    pub listed : Has (compile ast).imports imp
    pub target : fs.abs (fs.join (fs.dir path_abs) imp) ≡ some q

  -- The imports of the file at `path` lead to the file at `q`.
  pub data Leads : Text → Text → Type 0 where
    one : {path q : Text} → Imports path q → Leads path q
    more : {path r q : Text} → Imports path r → Leads r q → Leads path q

  -- Every import of a merged list was loaded.
  merge_imports-loads :
      (load : Text → Loaded File) (root : Text) (imps : List Text) (merged cfg : File)
      → merge_imports fs load root imps merged ≡ ok cfg
      → All
          (λ imp. (q : Text) → fs.abs (fs.join root imp) ≡ some q → (i : File) × (load q ≡ ok i))
          imps
  unfolding merge_imports
  merge_imports-loads load root [] merged cfg h = tt
  merge_imports-loads load root (imp ∷ imps) merged cfg h =
      let (r, e, h₁) =
        >>=-eq-ok (or_fail (Load.in_import imp (Load.resolve_path imp)) (fs.abs (fs.join root imp)))
          (λ resolved. wrap imp (load resolved) >>= λ imported.
            merge_imports fs load root imps (append_file merged imported))
          h in
      let (i, l, h₂) =
        >>=-eq-ok (wrap imp (load r))
          (λ imported. merge_imports fs load root imps (append_file merged imported)) h₁ in
      let found = or_fail-eq-ok _ (fs.abs (fs.join root imp)) e in
      (
        λ q f. (i, rw (some_same (sym f ∙ found)) (wrap-eq-ok imp (load r) l)),
        merge_imports-loads load root imps (append_file merged i) cfg h₂,
      )

  finish_imports-loads :
      (load : Text → Loaded File) (cfg : File) (imps : List Text) (out : File)
      → finish_imports fs load cfg imps ≡ ok out
      → (validate out ≡ [])
        × All
            (λ imp.
              (q : Text)
              → fs.abs (fs.join cfg.root_dir imp) ≡ some q
              → (i : File) × (load q ≡ ok i))
            imps
  unfolding finish_imports
  finish_imports-loads load cfg [] out h =
      let (same, valid) = validated-eq-ok cfg out h in (subst (λ c. validate c ≡ []) same valid, tt)
  finish_imports-loads load cfg (imp ∷ imps) out h =
      let (m, e, h₁) =
        >>=-eq-ok (merge_imports fs load cfg.root_dir (imp ∷ imps) (record cfg { imports = [] }))
          validated h in
      let (same, valid) = validated-eq-ok m out h₁ in
      (
        subst (λ c. validate c ≡ []) same valid,
        merge_imports-loads load cfg.root_dir (imp ∷ imps) (record cfg { imports = [] }) m e,
      )

  -- What a successful load did.
  record Success (fuel : ℕ) (visited : List Text) (path : Text) (out : File) : Type 0 where
    path_abs : Text
    resolved : fs.abs path ≡ some path_abs
    fresh : contains visited path_abs ≡ false
    valid : validate out ≡ []
    loads :
        (q : Text)
        → Imports path q
        → (i : File) × (load_with_imports fs fuel (path_abs ∷ visited) q ≡ ok i)

  load_parsed :
      (fuel : ℕ) (visited : List Text) (path p : Text) (ast : Bakefile) (out : File)
      → fs.abs path ≡ some p
      → fs.parse path ≡ some ast
      → contains visited p ≡ false
      → finish fs (load_with_imports fs fuel (p ∷ visited)) path p ast ≡ ok out
      → Success fuel visited path out
  unfolding finish
  load_parsed fuel visited path p ast out e f n h =
      let (valid, all) =
        finish_imports-loads (load_with_imports fs fuel (p ∷ visited))
          (record (compile ast) { bake_path = path; root_dir = fs.dir p }) (compile ast).imports out
          h in
      record {
        path_abs = p;
        resolved = e;
        fresh = n;
        valid = valid;
        loads = λ q i.
            All-contains
              (λ imp.
                (r : Text)
                → fs.abs (fs.join (fs.dir p) imp) ≡ some r
                → (c : File) × (load_with_imports fs fuel (p ∷ visited) r ≡ ok c))
              (compile ast).imports i.imp all
              (subst (λ a. Has (compile a).imports i.imp) (some_same (sym i.parsed ∙ f)) i.listed) q
              (subst (λ a. fs.abs (fs.join (fs.dir a) i.imp) ≡ some q)
                (some_same (sym i.resolved ∙ e)) i.target);
      }

  load_inversion :
      (fuel : ℕ) (visited : List Text) (path : Text) (out : File)
      → load_with_imports fs (suc fuel) visited path ≡ ok out
      → Success fuel visited path out
  unfolding load_with_imports
  load_inversion fuel visited path out h =
      let (p, e, h₁) =
        >>=-eq-ok (or_fail (Load.resolve_path path) (fs.abs path))
          (λ p.
            if contains visited p
            then failed (Load.import_cycle path)
            else (or_fail (Load.parse_error path) (fs.parse path) >>= λ ast.
                finish fs (load_with_imports fs fuel (p ∷ visited)) path p ast))
          h in
      elim (Bool-cases (contains visited p)) [
        | inl cycle ↦ absurd (failed-ne-ok (rw cycle at h₁))
        | inr n ↦
            let (ast, f, h₂) =
              >>=-eq-ok (or_fail (Load.parse_error path) (fs.parse path))
                (λ ast. finish fs (load_with_imports fs fuel (p ∷ visited)) path p ast)
                (rw n at h₁) in
            load_parsed fuel visited path p ast out (or_fail-eq-ok _ (fs.abs path) e)
              (or_fail-eq-ok _ (fs.parse path) f) n h₂
      ]

  load-zero :
      (visited : List Text) (path : Text) → load_with_imports fs zero visited path ≡ out_of_fuel
  unfolding load_with_imports
  load-zero visited path = refl

  load-fresh :
      (fuel : ℕ) (visited : List Text) (path : Text) (out : File)
      → load_with_imports fs fuel visited path ≡ ok out
      → (p : Text) × (fs.abs path ≡ some p) × (contains visited p ≡ false)
  load-fresh zero visited path out h = cc (load-zero visited path)
  load-fresh (suc fuel) visited path out h =
      let s : Success fuel visited path out = load_inversion fuel visited path out h in
      (s.path_abs, s.resolved, s.fresh)

  -- No file that the imports lead to is being loaded already.
  load-apart :
      (fuel : ℕ) (visited : List Text) (path q : Text) (out : File) (q_abs : Text)
      → load_with_imports fs fuel visited path ≡ ok out
      → Leads path q
      → fs.abs q ≡ some q_abs
      → (p : Text) → fs.abs path ≡ some p
      → contains (p ∷ visited) q_abs ≡ false
  load-apart zero visited path q out q_abs h l e p f = cc (load-zero visited path)
  load-apart (suc fuel) visited path q out q_abs h (one i) e p f =
      let s : Success fuel visited path out = load_inversion fuel visited path out h in
      let (c, l) = s.loads q i in
      let (a, found, n) = load-fresh fuel (s.path_abs ∷ visited) q c l in
      subst₂ (λ x y. contains (x ∷ visited) y ≡ false) (some_same (sym s.resolved ∙ f))
        (some_same (sym found ∙ e)) n
  load-apart (suc fuel) visited path q out q_abs h (more {r = r} i rest) e p f =
      let s : Success fuel visited path out = load_inversion fuel visited path out h in
      let (c, l) = s.loads r i in
      let (a, found, n) = load-fresh fuel (s.path_abs ∷ visited) r c l in
      let m = load-apart fuel (s.path_abs ∷ visited) r q c q_abs l rest e a found in
      subst (λ x. contains (x ∷ visited) q_abs ≡ false) (some_same (sym s.resolved ∙ f))
        (ground (arith, contains-cons a (s.path_abs ∷ visited) q_abs, m))

  load_with_imports-valid :
      (fuel : ℕ) (visited : List Text) (path : Text) (out : File)
      → load_with_imports fs fuel visited path ≡ ok out
      → validate out ≡ []
  load_with_imports-valid zero visited path out h = cc (load-zero visited path)
  load_with_imports-valid (suc fuel) visited path out h =
      let s : Success fuel visited path out = load_inversion fuel visited path out h in s.valid

  -- The file at `path` itself, or one that its imports lead to.
  pub data Within : Text → Text → Type 0 where
    itself : {path : Text} → Within path path
    below : {path r q : Text} → Imports path r → Within r q → Within path q

  -- Among the file and those that its imports lead to is one whose imports lead to itself.
  pub data HasCycle (path : Text) : Type 0 where
    cycle :
        {q r p : Text}
        → Within path q
        → Leads q r
        → fs.abs q ≡ some p
        → fs.abs r ≡ some p
        → HasCycle path

  load-Within :
      (fuel : ℕ) (visited : List Text) (path q r p : Text) (out : File)
      → load_with_imports fs fuel visited path ≡ ok out
      → Within path q
      → Leads q r
      → fs.abs q ≡ some p
      → fs.abs r ≢ some p
  load-Within fuel visited path q r p out h itself l e f =
      ground (
        arith,
        load-apart fuel visited path r out p h l f p e,
        contains-cons p visited p,
        ==_refl p,
      )
  load-Within zero visited path q r p out h (below i w) l e f = cc (load-zero visited path)
  load-Within (suc fuel) visited path q r p out h (below {r = next} i w) l e f =
      let s : Success fuel visited path out = load_inversion fuel visited path out h in
      let (c, loaded) = s.loads next i in
      load-Within fuel (s.path_abs ∷ visited) next q r p c loaded w l e f

  load-no_cycle :
      (fuel : ℕ) (path : Text) (out : File)
      → load_with_imports fs fuel [] path ≡ ok out
      → ¬ HasCycle path
  load-no_cycle fuel path out h (cycle {q} {r} {p} w l e f) =
      load-Within fuel [] path q r p out h w l e f

  -- If a file loads, the merged file passes Validate, and the imports have no cycle: neither the file
  -- nor any that its imports lead to has imports that lead back to it.
  pub load_with_imports-acyclic :
      (fuel : ℕ) (path : Text) (out : File)
      → load_with_imports fs fuel [] path ≡ ok out
      → (validate out ≡ []) × (¬ HasCycle path)
  load_with_imports-acyclic fuel path out h =
      (load_with_imports-valid fuel [] path out h, load-no_cycle fuel path out h)
