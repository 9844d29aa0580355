-- ===== src/Staticlint/Reports.antt =====
-- Which calls the analyzer reports.
use mathlib.Core.List.{append_assoc, append-nil}
use go_advanced.Base.{
  ℕ, ◌≡◌, refl, sym, ap, ◌∙◌, inl, inr, Bool, true, false, Bool-cases, not, ◌||◌, List, [], ◌∷◌,
  ◌++◌, str_eq, if◌then◌else◌,
}
use go_advanced.Staticlint.{
  is_generated, Callee, Node, defer_stmt, call_expr, other_node, Nodes, no_nodes, more_nodes,
  is_os_exit, Pass, visit_call, inspect, inspect_all, Decl, func_decl, other_decl, File,
}

abbrev exit_at : ℕ → Callee → List ℕ
exit_at lparen callee = if is_os_exit callee then lparen ∷ [] else []

-- all calls of os.Exit below a node, from left to right
unfoldable mutual
  pub exits : Node → List ℕ
  exits (defer_stmt below) = exits_all below
  exits (call_expr lparen callee below) = exit_at lparen callee ++ exits_all below
  exits (other_node below) = exits_all below

  pub exits_all : Nodes → List ℕ
  exits_all no_nodes = []
  exits_all (more_nodes n ns) = exits n ++ exits_all ns

-- the node without the first defer statement that the walk meets, and whether it has met none yet
unfoldable mutual
  pub cut : Node → Bool → Node × Bool
  cut (defer_stmt below) true = (other_node no_nodes, false)
  cut (defer_stmt below) false = (defer_stmt below, false)
  cut (call_expr lparen callee below) b =
      let (below', b') = cut_all below b in (call_expr lparen callee below', b')
  cut (other_node below) b = let (below', b') = cut_all below b in (other_node below', b')

  pub cut_all : Nodes → Bool → Nodes × Bool
  cut_all no_nodes b = (no_nodes, b)
  cut_all (more_nodes n ns) b =
      let (n', b') = cut n b in let (ns', b'') = cut_all ns b' in (more_nodes n' ns', b'')

abbrev pass : List ℕ → Bool → Pass
pass reports b = record { reports = reports; first_defer = b }

visit_call_lem :
    (lparen : ℕ) (callee : Callee) (l : List ℕ) (b : Bool)
    → visit_call lparen callee (pass l b) ≡ pass (l ++ exit_at lparen callee) b
visit_call_lem lparen callee l b = elim (Bool-cases (is_os_exit callee)) [
  | inl exit ↦ rw exit refl
  | inr quiet ↦ rw quiet (ap (λ r. pass r b) (sym (append-nil l)))
]

mutual
  unfolding inspect exits

  -- after the first defer statement, every call of os.Exit is reported
  inspect_rest : (n : Node) (l : List ℕ) → inspect n (pass l false) ≡ pass (l ++ exits n) false
  inspect_rest (defer_stmt below) l = inspect_all_rest below l
  inspect_rest (call_expr lparen callee below) l = rw (visit_call_lem lparen callee l false) (
      inspect_all_rest below (l ++ exit_at lparen callee)
      ∙ ap (λ r. pass r false) (append_assoc l (exit_at lparen callee) (exits_all below)))
  inspect_rest (other_node below) l = inspect_all_rest below l

  inspect_all_rest :
      (ns : Nodes) (l : List ℕ) → inspect_all ns (pass l false) ≡ pass (l ++ exits_all ns) false
  inspect_all_rest no_nodes l = ap (λ r. pass r false) (sym (append-nil l))
  inspect_all_rest (more_nodes n ns) l = rw (inspect_rest n l) (
      inspect_all_rest ns (l ++ exits n)
      ∙ ap (λ r. pass r false) (append_assoc l (exits n) (exits_all ns)))

abbrev Cut : Node × Bool → List ℕ → Pass
Cut (n, b) l = pass (l ++ exits n) b

abbrev CutAll : Nodes × Bool → List ℕ → Pass
CutAll (ns, b) l = pass (l ++ exits_all ns) b

mutual
  unfolding inspect exits cut

  -- the walk reports the calls of os.Exit outside of the first defer statement
  inspect_lem : (n : Node) (b : Bool) (l : List ℕ) → inspect n (pass l b) ≡ Cut (cut n b) l
  inspect_lem (defer_stmt below) true l = ap (λ r. pass r false) (sym (append-nil l))
  inspect_lem (defer_stmt below) false l = inspect_rest (defer_stmt below) l
  inspect_lem (call_expr lparen callee below) b l = rw (visit_call_lem lparen callee l b) (
      inspect_all_lem below b (l ++ exit_at lparen callee)
      ∙ ap (λ r. pass r (cut_all below b).1)
          (append_assoc l (exit_at lparen callee) (exits_all (cut_all below b).0)))
  inspect_lem (other_node below) b l = inspect_all_lem below b l

  inspect_all_lem :
      (ns : Nodes) (b : Bool) (l : List ℕ) → inspect_all ns (pass l b) ≡ CutAll (cut_all ns b) l
  inspect_all_lem no_nodes b l = ap (λ r. pass r b) (sym (append-nil l))
  inspect_all_lem (more_nodes n ns) b l = rw (inspect_lem n b l) (
      inspect_all_lem ns (cut n b).1 (l ++ exits (cut n b).0)
      ∙ ap (λ r. pass r (cut_all ns (cut n b).1).1)
          (append_assoc l (exits (cut n b).0) (exits_all (cut_all ns (cut n b).1).0)))

-- what a declaration should be reported for
abbrev pub of_decl : Decl → List ℕ
of_decl other_decl = []
of_decl (func_decl name has_recv body) =
    if not (str_eq name "main") || has_recv then [] else exits (cut body true).0

abbrev pub of_decls : List Decl → List ℕ
of_decls [] = []
of_decls (d ∷ ds) = of_decl d ++ of_decls ds

abbrev pub of_files : List File → List ℕ
of_files [] = []
of_files (f ∷ fs) = (if is_generated f then [] else of_decls f.decls) ++ of_files fs
