-- ===== src/Middleware/Rsa.antt =====
-- internal/middleware/rsa: the agent encrypts the body of its request, and the server decrypts it.
-- The ciphers of `crypto/rsa`, with their keys, come in as `encrypt` and `decrypt`.
pub mod Keys
use go_advanced.Base.{String, str_eq, if◌then◌else◌}
use go_advanced.Base.Exec.{returned}
use go_advanced.Entities.Errors.{Result, ok, err}
use go_advanced.GoMap.{insert}
use go_advanced.Http.{Request, get, http_error}
use go_advanced.Middleware.{Handler}

-- the end of `decryptBodyMiddleware`
abbrev decrypted : {S : Type 0} → Handler S → Request → Result String → Handler S
decrypted next req (err e) _ s = returned (http_error "decryption failed" 400) s
decrypted next req (ok text) _ s =
    next
      (record req { body = ok text; header = insert "Content-Type" "application/json" req.header })
      s

abbrev read_or_refuse :
    {S : Type 0} → (String → Result String) → Handler S → Result String → Handler S
read_or_refuse decrypt next (err e) req s = returned (http_error "read failed" 400) s
read_or_refuse decrypt next (ok text) req s = decrypted next req (decrypt text) req s

-- `decoder.decryptBodyMiddleware`
unfoldable pub decrypt_body_middleware :
    {S : Type 0} → (String → Result String) → Handler S → Handler S
decrypt_body_middleware decrypt next req s =
    if str_eq (get "Content-Type" req.header) "application/octet-stream"
    then read_or_refuse decrypt next req.body req s
    else next req s

abbrev with_body : Request → Result String → Result Request
with_body req (err e) = err e
with_body req (ok text) = ok (record req {
  body = ok text;
  header = insert "Content-Type" "application/octet-stream" req.header;
})

abbrev encrypt_or_fail : (String → Result String) → Request → Result String → Result Request
encrypt_or_fail encrypt req (err e) = err e
encrypt_or_fail encrypt req (ok plain) = with_body req (encrypt plain)

-- `encoder.encryptBody`, on a request with a body
unfoldable pub encrypt_body : (String → Result String) → Request → Result Request
encrypt_body encrypt req = encrypt_or_fail encrypt req req.body
