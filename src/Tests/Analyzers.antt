-- ===== src/Tests/Analyzers.antt =====
-- The analyzer on a file whose function main exits in a deferred call, and then twice.
use go_advanced.Base.{ℕ, ◌≡◌, refl, false, some, [], ◌∷◌}
use go_advanced.Staticlint.{
  pkg_name, selector, Node, defer_stmt, call_expr, other_node, no_nodes, more_nodes, func_decl,
  File, is_generated, inspect, run,
}

abbrev exit_call : ℕ → Node
exit_call lparen = call_expr lparen (selector "Exit" (some (pkg_name "os"))) no_nodes

abbrev file : File
file = record {
  comments = "the program\n" ∷ [];
  decls =
      func_decl "main" false (
        other_node (
          more_nodes (defer_stmt (more_nodes (exit_call 1) no_nodes)) (
            more_nodes (exit_call 2)
              (more_nodes (defer_stmt (more_nodes (exit_call 3) no_nodes)) no_nodes))))
      ∷ [];
}

-- the same file, with the comment of a generator
abbrev generated : File
generated = record file { comments = "Code generated by mockery.\n" ∷ "generated" ∷ [] }

run_at : run "main" (generated ∷ file ∷ []) ≡ 2 ∷ 3 ∷ []
unfolding run inspect is_generated
run_at = refl
