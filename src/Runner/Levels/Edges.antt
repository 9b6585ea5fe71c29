-- ===== src/Runner/Levels/Edges.antt =====
-- AllEdges holds the dependencies of each target.
use go_bake.Base.{
  ◌≡◌, refl, sym, ap, ◌∙◌, Bool-cases, inl, inr, none, some, List, [], ◌∷◌, map, Text, TextMap,
  lookup, insert, lookup-insert, AllDistinct, contains, ◌==◌, ==_iff, arith, false,
}
use go_bake.Config.{File, Target, find_target, target_by_name}
use go_bake.Runner.Levels.{add_edges, all_edges, edges_of}

lookup-add_edges_missing :
    (ts : List Target) (out : TextMap (List Text)) (n : Text)
    → contains (map (λ t. t.name) ts) n ≡ false
    → lookup n (add_edges ts out) ≡ lookup n out
unfolding add_edges contains
lookup-add_edges_missing [] out n m = refl
lookup-add_edges_missing (u ∷ ts) out n m = ground (
  arith,
  lookup-add_edges_missing ts (insert u.name u.deps out) n,
  lookup-insert u.name n u.deps out,
)

lookup-add_edges :
    (ts : List Target) (out : TextMap (List Text)) (n : Text) (t : Target)
    → AllDistinct (map (λ t. t.name) ts)
    → find_target ts n ≡ some t
    → lookup n (add_edges ts out) ≡ some t.deps
unfolding add_edges find_target
lookup-add_edges [] out n t d e = absurd (ground arith)
lookup-add_edges (u ∷ ts) out n t d e = elim (Bool-cases (u.name == n)) [
  | inl same ↦
      let missing : contains (map (λ t. t.name) ts) n ≡ false =
        rw (sym ((==_iff u.name n).0 same)) d.0 in
      let found : u ≡ t = ground arith in
      lookup-add_edges_missing ts (insert u.name u.deps out) n missing
      ∙ lookup-insert u.name n u.deps out
      ∙ rw same (ap (λ v. some v.deps) found)
  | inr other ↦ lookup-add_edges ts (insert u.name u.deps out) n t d.1 (ground arith)
]

-- With distinct names, the edges of a target are its dependencies.
pub edges_of-all_edges :
    (cfg : File) (n : Text) (t : Target)
    → AllDistinct (map (λ t. t.name) cfg.targets)
    → target_by_name cfg n ≡ some t
    → edges_of (all_edges cfg) n ≡ t.deps
unfolding edges_of all_edges target_by_name
edges_of-all_edges cfg n t d e =
    ap (λ o. elim o [ none ↦ [] | some deps ↦ deps ]) (lookup-add_edges cfg.targets [] n t d e)
