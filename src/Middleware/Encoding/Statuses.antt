-- ===== src/Middleware/Encoding/Statuses.antt =====
-- What the compression of a response does to its status.
use go_advanced.Base.{String, inl, inr, List, [], ◌∷◌, ◌<>◌, Bool-cases}
use go_advanced.GoMap.{GoMap, insert}
use go_advanced.Http.{get, Action, set_header, write_header, write}
use go_advanced.Http.Laws.{NoStatus}
use go_advanced.Middleware.Encoding.{Gzip, is_compressible, compressing, compressed}

module _ (z : Gzip) where
  compressing-NoStatus :
      (acts : List Action) (text : String) → NoStatus acts → NoStatus (compressing z acts text)
  unfolding compressing
  compressing-NoStatus [] text quiet = tt
  compressing-NoStatus (write t ∷ acts) text quiet = compressing-NoStatus acts (text <> t) quiet
  compressing-NoStatus (set_header k v ∷ acts) text quiet = compressing-NoStatus acts text quiet
  compressing-NoStatus (write_header code ∷ acts) text quiet = elim quiet [ ]

  -- the compression adds no `WriteHeader`
  pub compressed-NoStatus :
      (acts : List Action) (header : GoMap String)
      → NoStatus acts
      → NoStatus (compressed z acts header)
  unfolding compressed
  compressed-NoStatus [] header quiet = tt
  compressed-NoStatus (set_header k v ∷ acts) header quiet =
      compressed-NoStatus acts (insert k v header) quiet
  compressed-NoStatus (write t ∷ acts) header quiet =
      elim (Bool-cases (is_compressible (get "Content-Type" header))) [
        | inl e ↦ rw e (compressing-NoStatus acts t quiet)
        | inr e ↦ rw e quiet
      ]
  compressed-NoStatus (write_header code ∷ acts) header quiet = elim quiet [ ]
