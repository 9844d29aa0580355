-- ===== src/Staticlint/Staticcheck.antt =====
-- cmd/staticlint/staticcheck/staticcheck.go and cmd/staticlint/main.go: which analyzers run. An analyzer
-- is given by its name; `has_prefix` is `strings.HasPrefix`.
use go_advanced.Base.{String, Bool, ◌||◌, List, [], ◌∷◌, ◌++◌, str_eq, if◌then◌else◌}
use go_advanced.Staticlint.Standard.{standard_analyzers}

unfoldable pub accept : (String → String → Bool) → String → Bool
accept has_prefix name =
    has_prefix name "SA" || str_eq name "S1000" || str_eq name "ST1001" || str_eq name "QF1001"

-- the loop of `analyzers`
unfoldable pub analyzers : (String → String → Bool) → List String → List String
unfolding accept
analyzers has_prefix [] = []
analyzers has_prefix (v ∷ vs) =
    let rest = analyzers has_prefix vs in if accept has_prefix v then v ∷ rest else rest

-- `main`: what is handed to the multichecker, from the `Analyzers` of staticcheck.go
unfoldable pub main : List String → List String
main staticcheck = standard_analyzers ++ staticcheck ++ "errcheck" ∷ "bodyclose" ∷ "noosexit" ∷ []
