-- ===== src/Middleware/Integrity/Guards.antt =====
-- A request that carries a signature is only let through with that signature.
use go_advanced.Base.{
  String, ◌≡◌, refl, ◌⊎◌, inl, inr, false, some, List, arith, is_empty, str_eq, str_eq_iff,
  Bool-cases,
}
use go_advanced.Base.Exec.{Outcome, returned}
use go_advanced.Entities.Errors.{ok, Result-cases, error_text}
use go_advanced.GoMap.{lookup}
use go_advanced.Http.{Request, Action, respond, blank, status, http_error}
use go_advanced.Middleware.{Handler}
use go_advanced.Middleware.Integrity.{integrity_key, verify_request, sign_verifier, integrity}

-- The request is answered with an error, and the state is as it was.
abbrev pub IsRefused : {S : Type 0} → S → Outcome S (List Action) → Type 0
IsRefused s r =
    (acts : List Action) × (r ≡ returned acts s)
    × ((status (respond acts blank) ≡ 400) ⊎ (status (respond acts blank) ≡ 500))

module _ (hmac : String → String → String) (key : String) {S : Type 0} (next : Handler S) where
  -- On a server with a key, a request with a signature header has a body with that HMAC under the key,
  -- or it is answered with status 400 or 500 and the state is as it was, whatever the handler does.
  pub integrity_guards :
      (req : Request) (s : S) (sum : String)
      → is_empty key ≡ false
      → lookup integrity_key req.header ≡ some sum
      → ((text : String) × (req.body ≡ ok text) × (hmac key text ≡ sum))
        ⊎ IsRefused s (integrity hmac key next req s)
  unfolding integrity sign_verifier verify_request respond
  integrity_guards req s sum filled signed = elim (Result-cases req.body) [
    | inl (text, e) ↦ elim (Bool-cases (str_eq (hmac key text) sum)) [
      | inl q ↦ inl (text, e, (str_eq_iff (hmac key text) sum).0 q)
      | inr q ↦
          inr (http_error "invalid signature" 400, ground (arith, filled, signed, e, q), inl refl)
    ]
    | inr (x, e) ↦ inr (http_error (error_text x) 500, ground (arith, filled, signed, e), inr refl)
  ]
