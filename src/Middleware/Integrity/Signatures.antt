-- ===== src/Middleware/Integrity/Signatures.antt =====
-- Which responses carry a signature: those whose handler did not call `WriteHeader`.
use go_advanced.Base.{
  ℕ, String, ◌≡◌, refl, ◌≢◌, Option, none, some, List, [], ◌∷◌, ◌++◌, arith, str_eq_iff,
}
use go_advanced.GoMap.{GoMap, lookup}
use go_advanced.GoMap.Laws.{lookup-insert}
use go_advanced.Http.{Action, set_header, write_header, write, Response, act, respond, blank}
use go_advanced.Http.Laws.{NoStatus, NoStatus-append}
use go_advanced.Middleware.Integrity.{integrity_key, passed, signed}

-- the header of the signature, in what was sent
abbrev pub signature : Response → Option String
signature r = elim r.sent [ none ↦ none | some s ↦ lookup integrity_key s.1 ]

passed-NoStatus : (acts : List Action) → NoStatus acts → NoStatus (passed acts)
passed-NoStatus [] quiet = tt
passed-NoStatus (set_header k v ∷ acts) quiet = passed-NoStatus acts quiet
passed-NoStatus (write text ∷ acts) quiet = passed-NoStatus acts quiet
passed-NoStatus (write_header code ∷ acts) quiet = elim quiet [ ]

-- the signature adds no `WriteHeader`
pub signed-NoStatus :
    (hmac : String → String → String) (key : String) (acts : List Action)
    → NoStatus acts
    → NoStatus (signed hmac key acts)
unfolding signed
signed-NoStatus hmac key acts quiet =
    NoStatus-append (passed acts) _ (passed-NoStatus acts quiet) tt

-- what was sent stays as it was sent
respond_fixed :
    (acts : List Action) (r : Response) (x : ℕ × GoMap String)
    → r.sent ≡ some x
    → (respond acts r).sent ≡ some x
unfolding respond
respond_fixed [] r x fixed = fixed
respond_fixed (set_header k v ∷ acts) r x fixed =
    respond_fixed acts (act (set_header k v) r) x fixed
respond_fixed (write text ∷ acts) r x fixed =
    respond_fixed acts (act (write text) r) x (ground arith)
respond_fixed (write_header code ∷ acts) r x fixed =
    respond_fixed acts (act (write_header code) r) x (ground arith)

-- `WriteHeader` is called, and before that no header of the signature's name is set.
abbrev pub SetsStatus : List Action → Type 0
SetsStatus [] = ⊥
SetsStatus (write_header code ∷ acts) = Unit
SetsStatus (set_header k v ∷ acts) = (k ≢ integrity_key) × SetsStatus acts
SetsStatus (write text ∷ acts) = SetsStatus acts

status_unsigned :
    (acts more : List Action) (r : Response)
    → SetsStatus acts
    → r.sent ≡ none
    → lookup integrity_key r.header ≡ none
    → signature (respond (passed acts ++ more) r) ≡ none
unfolding respond
status_unsigned [] more r sets unsent absent = elim sets [ ]
status_unsigned (write_header code ∷ acts) more r sets unsent absent =
    ground (arith, respond_fixed (passed acts ++ more) (act (write_header code) r) (code, r.header))
status_unsigned (set_header k v ∷ acts) more r sets unsent absent =
    status_unsigned acts more (act (set_header k v) r) sets.1 unsent
      (ground (arith, lookup-insert k integrity_key v r.header, str_eq_iff k integrity_key))
status_unsigned (write text ∷ acts) more r sets unsent absent =
    status_unsigned acts more r sets unsent absent

module _ (hmac : String → String → String) (key : String) where
  -- A response whose handler calls `WriteHeader`, before which it does not set the signature header
  -- itself, is sent without a signature.
  pub unsigned_response :
      (acts : List Action)
      → SetsStatus acts
      → signature (respond (signed hmac key acts) blank) ≡ none
  unfolding signed lookup
  unsigned_response acts sets = status_unsigned acts _ blank sets refl refl
