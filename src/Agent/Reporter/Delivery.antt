-- ===== src/Agent/Reporter/Delivery.antt =====
-- A report reaches the handler: what the agent compresses, signs and encrypts, the middlewares of the
-- server decrypt, check and decompress.
use mathlib.Core.Option
use go_advanced.Base.{
  String, ◌≡◌, refl, sym, subst, ◌∙◌, ap, ◌⊎◌, inl, inr, true, false, Option, none, some, List, [],
  arith, is_empty, str_eq_refl, Bool-cases, ◌<>◌, if◌then◌else◌,
}
use go_advanced.Base.Exec.{Outcome, returned, blocked}
use go_advanced.Entities.Errors.{Result, ok, Result-cases}
use go_advanced.GoMap.{lookup, insert}
use go_advanced.Http.{Request, get, Action}
use go_advanced.Http.Laws.{NoStatus}
use go_advanced.Middleware.{Handler, finish}
use go_advanced.Middleware.Encoding.Statuses.{compressed-NoStatus}
use go_advanced.Middleware.Integrity.Signatures.{signed-NoStatus}
use go_advanced.Middleware.Encoding.{Gzip, IsGzip, contains_gzip, compressed, encoding}
use go_advanced.Middleware.Integrity.{verify_request, sign_verifier, signed, integrity}
use go_advanced.Middleware.Rsa.{encrypt_body, decrypt_body_middleware}
use go_advanced.Server.Stack.{with_middlewares}
use go_advanced.Agent.Reporter.{with_sum, build_request}
use go_advanced.Agent.Reporter.Headers.{
  transported, sum_headers, decrypted_headers, encrypted_request, decrypted_request, encrypted_type,
}

pub record Cipher : Type 0 where
  pub encrypt : String → Result String
  pub decrypt : String → Result String

-- What was encrypted is decrypted.
pub record IsCipher (c : Cipher) : Type 0 where
  pub decrypts : (plain text : String) → c.encrypt plain ≡ ok text → c.decrypt text ≡ ok plain

-- The handler is reached with the body, in JSON; only the answer passes through the middlewares, which
-- call no `WriteHeader` themselves.
pub record IsDelivered {S : Type 0} (next : Handler S) (s : S) (body : String)
    (r : Outcome S (List Action)) : Type 0 where
  pub request : Request
  pub answer : List Action → List Action
  pub quiet : (acts : List Action) → NoStatus acts → NoStatus (answer acts)
  pub reached : r ≡ finish answer (next request s)
  pub same_body : request.body ≡ ok body
  pub in_json : get "Content-Type" request.header ≡ "application/json"

-- The keys of the agent and of the server are the same, or one of them has none.
abbrev pub Agree : String → String → Type 0
Agree k k' = (is_empty k ≡ true) ⊎ (is_empty k' ≡ true) ⊎ (k ≡ k')

module _ (z : Gzip) (gzip : IsGzip z) {S : Type 0} (next : Handler S) (s : S) (body : String) where
  encoding_delivers :
      (req : Request)
      → get "Content-Encoding" req.header ≡ "gzip"
      → get "Content-Type" req.header ≡ "application/json"
      → req.body ≡ ok (z.head <> z.rest body)
      → IsDelivered next s body (encoding z next req s)
  unfolding encoding
  encoding_delivers req ce ct b =
      let read : z.new_reader req.body ≡ ok (ok body) = ap z.new_reader b ∙ gzip.reads_back body in
      let gzipped : contains_gzip (get "Content-Encoding" req.header) ≡ true =
        ap contains_gzip ce ∙ refl in
      record {
        request = record req { body = ok body };
        answer = λ acts.
            if contains_gzip (get "Accept-Encoding" req.header) then compressed z acts [] else acts;
        quiet = λ acts no_status.
            elim (Bool-cases (contains_gzip (get "Accept-Encoding" req.header))) [
              | inl e ↦ rw e (compressed-NoStatus z acts [] no_status)
              | inr e ↦ rw e no_status
            ];
        reached = rw (gzipped, read);
        same_body = refl;
        in_json = ct;
      }

  -- a middleware that passes the request on, and may change the answer
  finish_delivers :
      (f : List Action → List Action) {r : Outcome S (List Action)}
      → ((acts : List Action) → NoStatus acts → NoStatus (f acts))
      → IsDelivered next s body r
      → IsDelivered next s body (finish f r)
  finish_delivers f {r} quiet d = record {
    request = d.request;
    answer = λ acts. f (d.answer acts);
    quiet = λ acts no_status. quiet (d.answer acts) (d.quiet acts no_status);
    reached = ap (finish f) d.reached ∙ finish_twice (next d.request s);
    same_body = d.same_body;
    in_json = d.in_json;
  }
    where
      finish_twice :
          (o : Outcome S (List Action))
          → finish f (finish d.answer o) ≡ finish (λ acts. f (d.answer acts)) o
      finish_twice (returned acts s') = refl
      finish_twice (blocked s') = refl

decrypts_to :
    {S : Type 0} (decrypt : String → Result String) (next : Handler S) (req : Request)
    (text plain : String) (s : S)
    → decrypt text ≡ ok plain
    → decrypt_body_middleware decrypt next (transported (encrypted_request req text)) s
      ≡ next (decrypted_request (transported (encrypted_request req text)) plain) s
unfolding decrypt_body_middleware
decrypts_to decrypt next req text plain s e = rw (encrypted_type req.header, e)

abbrev pub AreCiphers : Option Cipher → Type 0
AreCiphers none = Unit
AreCiphers (some c) = IsCipher c

module _ (z : Gzip) (hmac : String → String → String) where
  -- the headers of a request before it is encrypted, sent with `key`
  record IsSigned (key : String) (body : String) (req : Request) : Type 0 where
    encoding_header : get "Content-Encoding" req.header ≡ "gzip"
    type_header : get "Content-Type" req.header ≡ "application/json"
    text : req.body ≡ ok (z.head <> z.rest body)
    sum :
        (lookup "HashSHA256" req.header ≡ none)
        ⊎ ((is_empty key ≡ false)
            × (lookup "HashSHA256" req.header ≡ some (hmac key (z.head <> z.rest body))))

  verify_passes :
      (key key' body : String) (req : Request)
      → Agree key key'
      → is_empty key' ≡ false
      → IsSigned key body req
      → verify_request hmac key' req ≡ none
  unfolding verify_request
  verify_passes key key' body req agree filled h =
      ground (arith, h.sum, h.text, str_eq_refl (hmac key' (z.head <> z.rest body)))

  sign_verifier_passes :
      {S : Type 0} (key : String) (next : Handler S) (req : Request) (s : S)
      → verify_request hmac key req ≡ none
      → sign_verifier hmac key next req s ≡ finish (signed hmac key) (next req s)
  unfolding sign_verifier
  sign_verifier_passes key next req s e = ground arith

  integrity_delivers :
      {S : Type 0} (gzip : IsGzip z) (next : Handler S) (s : S) (key key' body : String)
      (req : Request)
      → Agree key key'
      → IsSigned key body req
      → IsDelivered next s body (integrity hmac key' (encoding z next) req s)
  unfolding integrity
  integrity_delivers gzip next s key key' body req agree h =
      let inner = encoding_delivers z gzip next s body req h.encoding_header h.type_header h.text in
      elim (Bool-cases (is_empty key')) [
        | inl e ↦ rw e inner
        | inr e ↦
            rw
              (
                e,
                sign_verifier_passes key' (encoding z next) req s
                    (verify_passes key key' body req agree e h),
              )
              (finish_delivers z gzip next s body (signed hmac key') (signed-NoStatus hmac key')
                inner)
      ]

  -- what `reportToURL` builds before the encoder
  plain_request : String → String → Request
  plain_request key body =
      let compressed_body = z.head <> z.rest body in
      let hex_sum = if is_empty key then "" else hmac key compressed_body in
      record {
        header =
            with_sum hex_sum
              (insert "Content-Encoding" "gzip" (insert "Content-Type" "application/json" []));
        body = ok compressed_body;
        url_params = [];
      }

  signed_or_not :
      (key text : String) {found : Option String}
      → (let sum = if is_empty key then "" else hmac key text in
          found ≡ (if is_empty sum then none else some sum))
      → (found ≡ none) ⊎ ((is_empty key ≡ false) × (found ≡ some (hmac key text)))
  signed_or_not key text sum = elim (Bool-cases (is_empty key)) [
    | inl e ↦ inl (sum ∙ rw e refl)
    | inr e ↦ elim (Bool-cases (is_empty (hmac key text))) [
      | inl e' ↦ inl (sum ∙ rw (e, e') refl)
      | inr e' ↦ inr (e, sum ∙ rw (e, e') refl)
    ]
  ]

  transported-IsSigned :
      (key body : String) → IsSigned key body (transported (plain_request key body))
  unfolding plain_request
  transported-IsSigned key body =
      let compressed_body = z.head <> z.rest body in
      let (ce, ct, sum) = sum_headers (if is_empty key then "" else hmac key compressed_body) in
      record {
        encoding_header = ce;
        type_header = ct;
        text = refl;
        sum = signed_or_not key compressed_body sum;
      }

  decrypted-IsSigned :
      (key body text : String)
      → IsSigned key body (
          decrypted_request
            (transported (encrypted_request (plain_request key body) text))
            (z.head <> z.rest body))
  unfolding plain_request
  decrypted-IsSigned key body text =
      let compressed_body = z.head <> z.rest body in
      let (ce, ct, sum) =
        decrypted_headers (if is_empty key then "" else hmac key compressed_body) in
      record {
        encoding_header = ce;
        type_header = ct;
        text = refl;
        sum = signed_or_not key compressed_body sum;
      }

  -- With keys that agree, with a cipher on both sides or on none, and where gzip and the cipher read
  -- back what was written, every request that the agent builds reaches the handler behind the
  -- middlewares of the server: with the body as it was before it was compressed, signed and encrypted,
  -- and with the JSON content type.
  pub build_request-IsDelivered :
      {S : Type 0} (next : Handler S) (s : S) (key key' body : String) (cipher : Option Cipher)
      (req : Request)
      → IsGzip z
      → AreCiphers cipher
      → Agree key key'
      → build_request z hmac key (Option.map (λ c. encrypt_body c.encrypt) cipher) body ≡ ok req
      → IsDelivered next s body (
          with_middlewares z hmac key'
            (Option.map (λ c. c.decrypt) cipher)
            next
            (transported req)
            s)
  unfolding build_request with_middlewares plain_request encrypt_body
  build_request-IsDelivered next s key key' body none req gzip _ agree e =
      subst (λ r. IsDelivered next s body (integrity hmac key' (encoding z next) (transported r) s))
        (ground arith)
        (integrity_delivers gzip next s key key' body (transported (plain_request key body)) agree
          (transported-IsSigned key body))
  build_request-IsDelivered next s key key' body (some c) req gzip cipher agree e =
      let plain = plain_request key body in
      let compressed_body = z.head <> z.rest body in
      elim (Result-cases (c.encrypt compressed_body)) [
        | inl (text, q) ↦
            let same : req ≡ encrypted_request plain text = ground arith in
            subst
              (λ r. IsDelivered next s body (
                decrypt_body_middleware c.decrypt (integrity hmac key' (encoding z next))
                  (transported r) s))
              (sym same)
              (rw
                (decrypts_to c.decrypt (integrity hmac key' (encoding z next)) plain text
                  compressed_body s (cipher.decrypts compressed_body text q))
                (integrity_delivers gzip next s key key' body
                  (decrypted_request (transported (encrypted_request plain text)) compressed_body)
                  agree (decrypted-IsSigned key body text)))
        | inr (x, q) ↦ absurd (ground arith)
      ]
