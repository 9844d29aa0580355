-- ===== src/Staticlint/Standard.antt =====
-- cmd/staticlint/standard/standard.go: the analyzers of golang.org/x/tools that run, by the names of
-- their packages.
use go_advanced.Base.{String, List, [], ◌∷◌}

abbrev pub standard_analyzers : List String
standard_analyzers =
    "appends" ∷ "bools" ∷ "copylock" ∷ "errorsas" ∷ "hostport" ∷ "pkgfact" ∷ "shift" ∷ "stdversion"
    ∷ "timeformat" ∷ "unusedwrite" ∷ "asmdecl" ∷ "buildssa" ∷ "ctrlflow" ∷ "fieldalignment"
    ∷ "httpmux" ∷ "loopclosure" ∷ "printf" ∷ "sigchanyzer" ∷ "stringintconv" ∷ "unmarshal"
    ∷ "usesgenerics" ∷ "assign" ∷ "buildtag" ∷ "deepequalerrors" ∷ "findcall" ∷ "httpresponse"
    ∷ "lostcancel" ∷ "slog" ∷ "structtag" ∷ "unreachable" ∷ "waitgroup" ∷ "atomic" ∷ "cgocall"
    ∷ "defers" ∷ "framepointer" ∷ "ifaceassert" ∷ "nilfunc" ∷ "reflectvaluecompare" ∷ "sortslice"
    ∷ "testinggoroutine" ∷ "unsafeptr" ∷ "atomicalign" ∷ "composite" ∷ "directive" ∷ "gofix"
    ∷ "inspect" ∷ "nilness" ∷ "shadow" ∷ "stdmethods" ∷ "tests" ∷ "unusedresult" ∷ []
