-- ===== src/Http/Laws.antt =====
-- The calls of two handlers, one after the other.
use go_advanced.Base.{◌≡◌, refl, arith, List, [], ◌∷◌, ◌++◌}
use go_advanced.Http.{Action, set_header, write_header, write, Response, act, respond, status}

pub respond-append :
    (xs ys : List Action) (r : Response) → respond (xs ++ ys) r ≡ respond ys (respond xs r)
unfolding respond
respond-append [] ys r = refl
respond-append (x ∷ xs) ys r = respond-append xs ys (act x r)

-- `WriteHeader` is not called.
abbrev pub NoStatus : List Action → Type 0
NoStatus [] = Unit
NoStatus (write_header code ∷ acts) = ⊥
NoStatus (set_header k v ∷ acts) = NoStatus acts
NoStatus (write text ∷ acts) = NoStatus acts

pub NoStatus-append : (xs ys : List Action) → NoStatus xs → NoStatus ys → NoStatus (xs ++ ys)
NoStatus-append [] ys quiet quiet' = quiet'
NoStatus-append (set_header k v ∷ xs) ys quiet quiet' = NoStatus-append xs ys quiet quiet'
NoStatus-append (write text ∷ xs) ys quiet quiet' = NoStatus-append xs ys quiet quiet'
NoStatus-append (write_header code ∷ xs) ys quiet quiet' = elim quiet [ ]

-- without `WriteHeader` the status is 200, if it was
pub status-NoStatus :
    (acts : List Action) (r : Response)
    → NoStatus acts
    → status r ≡ 200
    → status (respond acts r) ≡ 200
unfolding respond
status-NoStatus [] r quiet fine = fine
status-NoStatus (set_header k v ∷ acts) r quiet fine =
    status-NoStatus acts (act (set_header k v) r) quiet fine
status-NoStatus (write text ∷ acts) r quiet fine =
    status-NoStatus acts (act (write text) r) quiet (ground arith)
status-NoStatus (write_header code ∷ acts) r quiet fine = elim quiet [ ]
