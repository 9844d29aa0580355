-- ===== src/Http.antt =====
-- What the program uses of `net/http` and chi: requests, and what a handler does to its
-- `http.ResponseWriter`, as the list of its calls. `respond` is the server's own writer: the first
-- `WriteHeader`, or the first `Write`, fixes the status and the headers that are sent.
pub mod Laws
use go_advanced.Base.{ℕ, String, Option, none, some, List, [], ◌∷◌, ◌++◌, ◌<>◌}
use go_advanced.Entities.Errors.{Result}
use go_advanced.GoMap.{GoMap, insert, get_or}

-- `body` is what reading the body to its end gives. `url_params` are those of the route.
pub record Request : Type 0 where
  pub header : GoMap String
  pub body : Result String
  pub url_params : GoMap String

-- `req.Header.Get(key)`, and `chi.URLParam(req, key)`: empty where the key is missing
abbrev pub get : String → GoMap String → String
get = get_or ""

pub data Action : Type 0 where
  set_header : String → String → Action
  write_header : ℕ → Action
  write : String → Action

pub record Response : Type 0 where
  pub header : GoMap String
  pub sent : Option (ℕ × GoMap String)
  pub body : String

abbrev pub blank : Response
blank = record { header = []; sent = none; body = "" }

abbrev pub send : ℕ → Response → Response
send code r = elim r.sent [ none ↦ record r { sent = some (code, r.header) } | some _ ↦ r ]

abbrev pub act : Action → Response → Response
act (set_header k v) r = record r { header = insert k v r.header }
act (write_header code) r = send code r
act (write text) r = let r' = send 200 r in record r' { body = r'.body <> text }

unfoldable pub respond : List Action → Response → Response
respond [] r = r
respond (a ∷ acts) r = respond acts (act a r)

-- A handler that has written nothing answers 200.
abbrev pub status : Response → ℕ
status r = elim r.sent [ none ↦ 200 | some s ↦ s.0 ]

-- `http.Error(res, text, code)`
abbrev pub http_error : String → ℕ → List Action
http_error text code =
    set_header "Content-Type" "text/plain; charset=utf-8"
    ∷ set_header "X-Content-Type-Options" "nosniff"
    ∷ write_header code
    ∷ write (text <> "\n")
    ∷ []

-- `http.NotFound(res, req)`
abbrev pub not_found : List Action
not_found = http_error "404 page not found" 404
