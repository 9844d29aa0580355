-- ===== src/Middleware/Summary.antt =====
-- internal/middleware/summary.go: the status and the size of the response, for the log.
use go_advanced.Base.{ℕ, ◌+◌, String, ◌≡◌, refl, sym, ◌∙◌, none, some, List, [], ◌∷◌, arith}
use go_advanced.GoMap.{GoMap}
use go_advanced.Http.{
  Action, set_header, write_header, write, Response, act, respond, blank, status,
}
use Prim.Native.String.{len}

-- the fields of `loggingResponseWriter`
pub record Log : Type 0 where
  pub response_status_code : ℕ
  pub response_size : ℕ

-- `Write` and `WriteHeader`; `Header()` is that of the wrapped writer
log_action : Action → Log → Log
log_action (set_header k v) l = l
log_action (write_header code) l = record l { response_status_code = code }
log_action (write text) l = record l { response_size = l.response_size + len text }

log_actions : List Action → Log → Log
log_actions [] l = l
log_actions (a ∷ acts) l = log_actions acts (log_action a l)

-- what `Summary` logs; the calls go on to the wrapped writer as they are
unfoldable pub summary : List Action → Log
unfolding log_actions log_action
summary acts = log_actions acts (record { response_status_code = 200; response_size = 0 })

-- after the status is fixed `WriteHeader` is not called
abbrev NoHeader : List Action → Type 0
NoHeader [] = Unit
NoHeader (write_header code ∷ acts) = ⊥
NoHeader (a ∷ acts) = NoHeader acts

-- `WriteHeader` is called at most once, and before any `Write`.
abbrev pub IsOrderly : List Action → Type 0
IsOrderly [] = Unit
IsOrderly (write_header code ∷ acts) = NoHeader acts
IsOrderly (write text ∷ acts) = NoHeader acts
IsOrderly (set_header k v ∷ acts) = IsOrderly acts

sent_status :
    (acts : List Action) (l : Log) (r : Response) (x : ℕ × GoMap String)
    → NoHeader acts
    → r.sent ≡ some x
    → ((log_actions acts l).response_status_code ≡ l.response_status_code)
      × (status (respond acts r) ≡ status r)
unfolding log_actions log_action respond
sent_status [] l r x quiet sent = (refl, refl)
sent_status (set_header k v ∷ acts) l r x quiet sent =
    sent_status acts l (act (set_header k v) r) x quiet sent
sent_status (write_header code ∷ acts) l r x quiet sent = elim quiet [ ]
sent_status (write text ∷ acts) l r x quiet sent =
    let l' : Log = record l { response_size = l.response_size + len text } in
    let (logged, same) = sent_status acts l' (act (write text) r) x quiet (ground arith) in
    (logged, same ∙ ground arith)

unsent_status :
    (acts : List Action) (l : Log) (r : Response)
    → IsOrderly acts
    → r.sent ≡ none
    → l.response_status_code ≡ 200
    → (log_actions acts l).response_status_code ≡ status (respond acts r)
unfolding log_actions log_action respond
unsent_status [] l r ok unsent start = ground arith
unsent_status (set_header k v ∷ acts) l r ok unsent start =
    unsent_status acts l (act (set_header k v) r) ok unsent start
unsent_status (write_header code ∷ acts) l r ok unsent start =
    let l' : Log = record l { response_status_code = code } in
    let (logged, same) =
      sent_status acts l' (act (write_header code) r) (code, r.header) ok (ground arith) in
    logged ∙ sym (same ∙ ground arith)
unsent_status (write text ∷ acts) l r ok unsent start =
    let l' : Log = record l { response_size = l.response_size + len text } in
    let (logged, same) =
      sent_status acts l' (act (write text) r) (200, r.header) ok (ground arith) in
    logged ∙ start ∙ sym (same ∙ ground arith)

-- Where `WriteHeader` is called at most once and before any `Write`, the status in the log is the
-- status that was sent.
pub summary-status :
    (acts : List Action)
    → IsOrderly acts
    → (summary acts).response_status_code ≡ status (respond acts blank)
unfolding summary
summary-status acts ok = unsent_status acts _ blank ok refl refl
