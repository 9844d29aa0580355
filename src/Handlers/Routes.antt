-- ===== src/Handlers/Routes.antt =====
-- internal/handlers/metrics_router.go, the routes. A `MetricsRouter` is what the program tells chi:
-- the middlewares, which `With` puts round each handler, and the routes. A path is the list of the
-- texts between its slashes, without the empty one before the first.
pub mod Dispatch
use mathlib.Core.Option
use go_advanced.Base.{
  ℕ, String, ◌≡◌, ◌⊎◌, Bool, true, false, not, Option, none, some, List, [], ◌∷◌, ◌++◌, str_eq,
  is_empty, All, if◌then◌else◌,
}
use go_advanced.Base.Exec.{returned}
use go_advanced.GoMap.{GoMap}
use go_advanced.Http.{Request, Action, respond, blank, status}
use go_advanced.Middleware.{Handler}
use go_advanced.Storage.{Storage}
use go_advanced.Handlers.Adapters.{Formats}
use go_advanced.Handlers.Router.{
  main_page_handler, get_as_json_handler, get_as_text_handler, update_from_json_handler,
  update_batch_from_json_handler, update_from_url_handler, ping_handler,
}

-- the methods of HTTP that have routes, and all others
pub data Method : Type 0 where
  get post other : Method

-- a part of a pattern: a text, or a name in braces
pub data Segment : Type 0 where
  text param : String → Segment

pub record Route (S : Type 0) : Type 0 where
  pub method : Method
  pub pattern : List Segment
  pub handler : Handler S

pub record MetricsRouter (S : Type 0) : Type 0 where
  pub middlewares : Handler S → Handler S
  pub routes : List (Route S)

abbrev pub is_method : Method → Method → Bool
is_method get get = true
is_method post post = true
is_method _ _ = false

-- the values of the names, if the path fits the pattern
unfoldable pub fits : List Segment → List String → Option (GoMap String)
fits [] [] = some []
fits (text t ∷ pattern) (x ∷ path) =
    let rest = fits pattern path in if str_eq t x then rest else none
fits (param n ∷ pattern) (x ∷ path) = Option.map (λ m. (n, x) ∷ m) (fits pattern path)
fits _ _ = none

module _ {S : Type 0} where
  -- `NewMetricsRouter`
  abbrev pub new_metrics_router : MetricsRouter S
  new_metrics_router = record { middlewares = λ h. h; routes = [] }

  -- `WithMiddlewares`, the first outermost
  abbrev pub with_middlewares : (Handler S → Handler S) → MetricsRouter S → MetricsRouter S
  with_middlewares middlewares r = record r { middlewares = λ h. r.middlewares (middlewares h) }

  abbrev handle : Method → List Segment → Handler S → MetricsRouter S → MetricsRouter S
  handle method pattern handler r = record r {
    routes = r.routes ++ record { method = method; pattern = pattern; handler = handler } ∷ [];
  }

  -- the routes that fit a request
  unfoldable pub candidates : List (Route S) → Method → List String → List (Route S × GoMap String)
  unfolding fits
  candidates [] m path = []
  candidates (r ∷ routes) m path =
      let rest = candidates routes m path in
      elim (if is_method r.method m then fits r.pattern path else none) [
        | none ↦ rest
        | some params ↦ (r, params) ∷ rest
      ]

-- `ServeHTTP` of chi: what it does with a method, a path and the rest of a request
abbrev pub Chi : Type 0 → Type 0
Chi S = MetricsRouter S → Method → List String → Handler S

-- What chi documents. A request that fits one route, with no value empty, reaches its handler through
-- the middlewares; one that fits none is answered with 404 or 405.
pub record IsChi {S : Type 0} (chi : Chi S) : Type 0 where
  pub routed :
      (router : MetricsRouter S) (m : Method) (path : List String) (r : Route S)
      (params : GoMap String) (req : Request)
      → candidates router.routes m path ≡ (r, params) ∷ []
      → All (λ (e : String × String). is_empty e.1 ≡ false) params
      → chi router m path req ≡ router.middlewares r.handler (record req { url_params = params })
  pub unrouted :
      (router : MetricsRouter S) (m : Method) (path : List String) (req : Request) (s : S)
      → candidates router.routes m path ≡ []
      → (acts : List Action) × (chi router m path req s ≡ returned acts s)
        × ((status (respond acts blank) ≡ 404) ⊎ (status (respond acts blank) ≡ 405))

module _ (st : Storage) (formats : Formats) where
  -- `WithAllHandlers`
  unfoldable pub with_all_handlers : MetricsRouter st.State → MetricsRouter st.State
  with_all_handlers r =
      let r = handle get (text "" ∷ []) (main_page_handler st formats) r in
      let r = handle post (text "update" ∷ text "" ∷ []) (update_from_json_handler st formats) r in
      let r =
        handle post (text "updates" ∷ text "" ∷ []) (update_batch_from_json_handler st formats) r in
      let r =
        handle post (text "update" ∷ param "type" ∷ param "name" ∷ param "value" ∷ [])
          (update_from_url_handler st formats) r in
      let r = handle post (text "value" ∷ text "" ∷ []) (get_as_json_handler st formats) r in
      let r =
        handle get (text "value" ∷ param "type" ∷ param "name" ∷ [])
          (get_as_text_handler st formats) r in
      handle get (text "ping" ∷ []) (ping_handler st formats) r
