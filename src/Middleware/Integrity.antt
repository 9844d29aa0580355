-- ===== src/Middleware/Integrity.antt =====
-- internal/middleware/integrity.go: the signature of the request is checked, and the response is
-- signed. The hex text of the HMAC comes in as `hmac key text`.
pub mod Signatures
pub mod Guards
use go_advanced.Base.{
  ℕ, String, Bool, Option, none, some, List, [], ◌∷◌, ◌++◌, str_eq, is_empty, ◌<>◌, if◌then◌else◌,
}
use go_advanced.Base.Exec.{Call, returned}
use go_advanced.Entities.Errors.{Error, error_text, Result, ok, err}
use go_advanced.GoMap.{lookup}
use go_advanced.Http.{Request, Action, set_header, write_header, write, http_error}
use go_advanced.Middleware.{Handler, finish}

abbrev pub integrity_key : String
integrity_key = "HashSHA256"

-- `signedWriter.Write` keeps the text in `bodyBuffer`; all other calls go to the wrapped writer
abbrev pub passed : List Action → List Action
passed [] = []
passed (write text ∷ acts) = passed acts
passed (set_header k v ∷ acts) = set_header k v ∷ passed acts
passed (write_header code ∷ acts) = write_header code ∷ passed acts

abbrev pub buffered : List Action → String
buffered [] = ""
buffered (write text ∷ acts) = text <> buffered acts
buffered (set_header k v ∷ acts) = buffered acts
buffered (write_header code ∷ acts) = buffered acts

module _ (hmac : String → String → String) where
  -- `Sign` sets the header and does the writing, after all that the handler did
  unfoldable pub signed : String → List Action → List Action
  signed key acts =
      passed acts
      ++ set_header integrity_key (hmac key (buffered acts)) ∷ write (buffered acts) ∷ []

  -- the answer if the signature is refused
  abbrev check : String → Option String → Result String → Option (List Action)
  check key none body = none
  check key (some expected) (err e) = some (http_error (error_text e) 500)
  check key (some expected) (ok body) =
      if str_eq (hmac key body) expected then none else some (http_error "invalid signature" 400)

  unfoldable pub verify_request : String → Request → Option (List Action)
  verify_request key req = check key (lookup integrity_key req.header) req.body

  -- `SignVerifier.Handler`
  unfoldable pub sign_verifier : {S : Type 0} → String → Handler S → Handler S
  unfolding verify_request signed
  sign_verifier key next req s = elim (verify_request key req) [
    | some refusal ↦ returned refusal s
    | none ↦ finish (signed key) (next req s)
  ]

  -- `Integrity(key)`: with an empty key the handler itself
  unfoldable pub integrity : {S : Type 0} → String → Handler S → Handler S
  unfolding sign_verifier
  integrity key next req s = if is_empty key then next req s else sign_verifier key next req s
