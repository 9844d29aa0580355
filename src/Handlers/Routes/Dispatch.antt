-- ===== src/Handlers/Routes/Dispatch.antt =====
-- The endpoints of the server, as the comments above the handlers name them.
use go_advanced.Base.{
  String, ◌≡◌, refl, ◌∙◌, ap, subst, ◌⊎◌, inl, inr, true, false, Option, none, some, List, [], ◌∷◌,
  str_eq, str_eq_iff, is_empty, arith, All, Bool-cases, if◌then◌else◌,
}
use go_advanced.Base.Exec.{Outcome, returned}
use go_advanced.GoMap.{GoMap}
use go_advanced.Http.{Request, Action, respond, blank, status}
use go_advanced.Middleware.{Handler}
use go_advanced.Storage.{Storage}
use go_advanced.Handlers.Adapters.{Formats}
use go_advanced.Handlers.Router.{
  main_page_handler, get_as_json_handler, get_as_text_handler, update_from_json_handler,
  update_batch_from_json_handler, update_from_url_handler, ping_handler,
}
use go_advanced.Handlers.Routes.{
  Method, get, post, other, text, param, Route, MetricsRouter, new_metrics_router, with_middlewares,
  fits, candidates, Chi, IsChi, with_all_handlers,
}

pub data Endpoint : Type 0 where
  main_page ping update_from_json update_batch get_as_json : Endpoint
  get_as_text : (type_ name : String) → Endpoint
  update_from_url : (type_ name value : String) → Endpoint

-- `GET /`, `GET /ping`, `POST /update/`, `POST /updates/`, `POST /value/`, `GET /value/{type}/{name}`
-- and `POST /update/{type}/{name}/{value}`
abbrev pub endpoint : Method → List String → Option Endpoint
endpoint get (x ∷ []) =
    if str_eq "" x then some main_page else if str_eq "ping" x then some ping else none
endpoint post (x ∷ y ∷ []) =
    if str_eq "" y
    then (if str_eq "update" x
        then some update_from_json
        else if str_eq "updates" x
        then some update_batch
        else if str_eq "value" x
        then some get_as_json
        else none)
    else none
endpoint get (x ∷ t ∷ n ∷ []) = if str_eq "value" x then some (get_as_text t n) else none
endpoint post (x ∷ t ∷ n ∷ v ∷ []) =
    if str_eq "update" x then some (update_from_url t n v) else none
endpoint _ _ = none

-- the values in the URL
abbrev pub params_of : Endpoint → GoMap String
params_of (get_as_text t n) = ("type", t) ∷ ("name", n) ∷ []
params_of (update_from_url t n v) = ("type", t) ∷ ("name", n) ∷ ("value", v) ∷ []
params_of _ = []

-- no value in the URL is empty
abbrev pub AreFilled : Option Endpoint → Type 0
AreFilled none = Unit
AreFilled (some e) = All (λ (v : String × String). is_empty v.1 ≡ false) (params_of e)

same : {a b : String} → str_eq a b ≡ true → a ≡ b
same {a} {b} e = (str_eq_iff a b).0 e

module _ (st : Storage) (formats : Formats) where
  abbrev pub handler_of : Endpoint → Handler st.State
  handler_of main_page = main_page_handler st formats
  handler_of ping = ping_handler st formats
  handler_of update_from_json = update_from_json_handler st formats
  handler_of update_batch = update_batch_from_json_handler st formats
  handler_of get_as_json = get_as_json_handler st formats
  handler_of (get_as_text t n) = get_as_text_handler st formats
  handler_of (update_from_url t n v) = update_from_url_handler st formats

  abbrev by_url : Route st.State
  by_url = record {
    method = post;
    pattern = text "update" ∷ param "type" ∷ param "name" ∷ param "value" ∷ [];
    handler = update_from_url_handler st formats;
  }

  -- the one route that fits, or none
  abbrev IsOnly : List (Route st.State × GoMap String) → Option Endpoint → Type 0
  IsOnly l none = l ≡ []
  IsOnly l (some e) =
      (r : Route st.State) × (l ≡ (r, params_of e) ∷ []) × (r.handler ≡ handler_of e)

  module _ (mws : Handler st.State → Handler st.State) where
    abbrev router : MetricsRouter st.State
    router = with_all_handlers st formats (with_middlewares mws new_metrics_router)

    abbrev Fits : Method → List String → Type 0
    Fits m path = IsOnly (candidates router.routes m path) (endpoint m path)

    candidates-IsOnly :
        (m : Method) (path : List String)
        → IsOnly (candidates router.routes m path) (endpoint m path)
    unfolding with_all_handlers candidates fits
    candidates-IsOnly get [] = refl
    candidates-IsOnly get (x ∷ []) = elim (Bool-cases (str_eq "" x)) [
      | inl e ↦ subst (Fits get) (ap (λ t. t ∷ []) (same e)) (_, refl, refl)
      | inr e ↦ elim (Bool-cases (str_eq "ping" x)) [
        | inl e' ↦ subst (Fits get) (ap (λ t. t ∷ []) (same e')) (_, refl, refl)
        | inr e' ↦ rw (e, e') (ground (arith, e, e'))
      ]
    ]
    candidates-IsOnly get (x ∷ y ∷ []) = ground arith
    candidates-IsOnly get (x ∷ y ∷ z ∷ []) = elim (Bool-cases (str_eq "value" x)) [
      | inl e ↦ subst (Fits get) (ap (λ t. t ∷ y ∷ z ∷ []) (same e)) (_, refl, refl)
      | inr e ↦ rw e (ground arith)
    ]
    candidates-IsOnly get (x ∷ y ∷ z ∷ w ∷ path) = ground arith
    candidates-IsOnly post [] = refl
    candidates-IsOnly post (x ∷ []) = ground arith
    candidates-IsOnly post (x ∷ y ∷ []) = elim (Bool-cases (str_eq "" y)) [
      | inl e ↦
          subst (λ y. Fits post (x ∷ y ∷ [])) (same e)
            (elim (Bool-cases (str_eq "update" x)) [
              | inl e1 ↦ subst (Fits post) (ap (λ t. t ∷ "" ∷ []) (same e1)) (_, refl, refl)
              | inr e1 ↦ elim (Bool-cases (str_eq "updates" x)) [
                | inl e2 ↦ subst (Fits post) (ap (λ t. t ∷ "" ∷ []) (same e2)) (_, refl, refl)
                | inr e2 ↦ elim (Bool-cases (str_eq "value" x)) [
                  | inl e3 ↦ subst (Fits post) (ap (λ t. t ∷ "" ∷ []) (same e3)) (_, refl, refl)
                  | inr e3 ↦ rw (e1, e2, e3) (ground (arith, e1, e2, e3))
                ]
              ]
            ])
      | inr e ↦ rw e (ground arith)
    ]
    candidates-IsOnly post (x ∷ y ∷ z ∷ []) = ground arith
    candidates-IsOnly post (x ∷ y ∷ z ∷ w ∷ []) = elim (Bool-cases (str_eq "update" x)) [
      | inl e ↦
          subst (Fits post) (ap (λ t. t ∷ y ∷ z ∷ w ∷ []) (same e))
            (elim (Bool-cases (str_eq "" y)) [
              | inl e' ↦
                  subst (λ y. Fits post ("update" ∷ y ∷ z ∷ w ∷ [])) (same e') (_, refl, refl)
              | inr e' ↦ (by_url, ground (arith, e'), refl)
            ])
      | inr e ↦ rw e (ground arith)
    ]
    candidates-IsOnly post (x ∷ y ∷ z ∷ w ∷ v ∷ path) = ground arith
    candidates-IsOnly other path = refl

    -- the answer to a request: that of the endpoint, or 404 or 405
    abbrev pub IsServed :
        (Request → st.State → Outcome st.State (List Action)) → Option Endpoint → Type 0
    IsServed serve (some e) =
        (req : Request) (s : st.State)
        → serve req s ≡ mws (handler_of e) (record req { url_params = params_of e }) s
    IsServed serve none =
        (req : Request) (s : st.State)
        → (acts : List Action) × (serve req s ≡ returned acts s)
          × ((status (respond acts blank) ≡ 404) ⊎ (status (respond acts blank) ≡ 405))

    served :
        (chi : Chi st.State) (m : Method) (path : List String) (o : Option Endpoint)
        → IsChi chi
        → AreFilled o
        → IsOnly (candidates router.routes m path) o
        → IsServed (chi router m path) o
    unfolding with_all_handlers
    served chi m path (some e) chi_law filled (r, only, its) = λ req s.
        ap (λ (h : st.State → Outcome st.State (List Action)). h s)
          (chi_law.routed router m path r (params_of e) req only filled)
        ∙ ap (λ (h : Handler st.State). mws h (record req { url_params = params_of e }) s) its
    served chi m path none chi_law filled only = λ req s. chi_law.unrouted router m path req s only

    -- With chi as documented, a request whose method and path are those of an endpoint, with no value
    -- in the URL empty, is answered by the handler of that endpoint, through the middlewares, with the
    -- values of the URL as its parameters. Any other request is answered with 404 or 405, and changes
    -- nothing.
    pub with_all_handlers_lem :
        (chi : Chi st.State) (m : Method) (path : List String)
        → IsChi chi
        → AreFilled (endpoint m path)
        → IsServed
            (chi (with_all_handlers st formats (with_middlewares mws new_metrics_router)) m path)
            (endpoint m path)
    with_all_handlers_lem chi m path chi_law filled =
        served chi m path (endpoint m path) chi_law filled (candidates-IsOnly m path)
