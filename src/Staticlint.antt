-- ===== src/Staticlint.antt =====
-- cmd/staticlint/noosexit/noosexit.go: the analyzer that reports calls of os.Exit in main.main. The
-- syntax tree is that of `go/ast` as far as the analyzer looks at it: it tells apart defer statements,
-- calls and the rest, and of a call it looks at the callee.
pub mod Reports
pub mod Staticcheck
pub mod Standard
use text.Mathlib.Text.{find?}
use go_advanced.Base.{
  ℕ, String, Bool, true, false, ◌&&◌, ◌||◌, not, Option, none, some, List, [], ◌∷◌, ◌++◌, str_eq,
  if◌then◌else◌,
}

-- what `pass.TypesInfo.Uses` has for an identifier: an imported package with its path, or another object
pub data Object : Type 0 where
  pkg_name : String → Object
  other_object : Object

-- `call.Fun`: a selector on an identifier, with what the identifier stands for, or anything else
pub data Callee : Type 0 where
  selector : String → Option Object → Callee
  other_callee : Callee

mutual
  pub data Node : Type 0 where
    defer_stmt : Nodes → Node
    -- the position of the parenthesis, the callee, and the nodes below, the callee's among them
    call_expr : ℕ → Callee → Nodes → Node
    other_node : Nodes → Node

  pub data Nodes : Type 0 where
    no_nodes : Nodes
    more_nodes : Node → Nodes → Nodes

abbrev pub is_os : Option Object → Bool
is_os (some (pkg_name path)) = str_eq path "os"
is_os _ = false

-- the tests of the closure on a call
abbrev pub is_os_exit : Callee → Bool
is_os_exit (selector name x) = str_eq name "Exit" && is_os x
is_os_exit other_callee = false

-- the reports so far, and `firstDefer`
pub record Pass : Type 0 where
  pub reports : List ℕ
  pub first_defer : Bool

abbrev pub visit_call : ℕ → Callee → Pass → Pass
visit_call lparen callee p =
    if is_os_exit callee then record p { reports = p.reports ++ lparen ∷ [] } else p

-- `ast.Inspect` with the closure: the node first, and then what is below, unless it says not to
unfoldable mutual
  pub inspect : Node → Pass → Pass
  inspect (defer_stmt below) p =
      let after = inspect_all below p in
      if p.first_defer then record p { first_defer = false } else after
  inspect (call_expr lparen callee below) p = inspect_all below (visit_call lparen callee p)
  inspect (other_node below) p = inspect_all below p

  pub inspect_all : Nodes → Pass → Pass
  inspect_all no_nodes p = p
  inspect_all (more_nodes n ns) p = inspect_all ns (inspect n p)

-- a declaration: a function with its name, whether it has a receiver, and its body, or another one
pub data Decl : Type 0 where
  func_decl : String → Bool → Node → Decl
  other_decl : Decl

-- the comments of the file as `Text()` gives them
pub record File : Type 0 where
  pub comments : List String
  pub decls : List Decl

-- `strings.Contains`
abbrev contains : String → String → Bool
contains s word = elim (find? s word) [ none ↦ false | some i ↦ true ]

abbrev first_has : String → List String → Bool
first_has word [] = false
first_has word (text ∷ texts) = contains text word

-- `len(file.Comments) > 0 && strings.Contains(file.Comments[0].Text(), "generated")`
unfoldable pub is_generated : File → Bool
is_generated f = first_has "generated" f.comments

abbrev pub inspect_decl : Decl → List ℕ → List ℕ
inspect_decl other_decl reports = reports
inspect_decl (func_decl name has_recv body) reports =
    if not (str_eq name "main") || has_recv
    then reports
    else (inspect body (record { reports = reports; first_defer = true })).reports

abbrev pub inspect_decls : List Decl → List ℕ → List ℕ
inspect_decls [] reports = reports
inspect_decls (d ∷ ds) reports = inspect_decls ds (inspect_decl d reports)

abbrev pub inspect_files : List File → List ℕ → List ℕ
inspect_files [] reports = reports
inspect_files (f ∷ fs) reports =
    inspect_files fs (if is_generated f then reports else inspect_decls f.decls reports)

-- `run`: the positions that it reports, in their order
unfoldable pub run : String → List File → List ℕ
run package_name files = if str_eq package_name "main" then inspect_files files [] else []
