-- ===== src/Agent/Reporter/Headers.antt =====
-- The headers of a report: as the agent sends them, and as they are after encryption and decryption.
use go_advanced.Base.{
  String, ◌≡◌, refl, inl, inr, none, some, [], is_empty, Bool-cases, if◌then◌else◌,
}
use go_advanced.Entities.Errors.{ok}
use go_advanced.GoMap.{GoMap, lookup, insert, get_or}
use go_advanced.GoMap.Laws.{lookup-insert, lookup-insert_self}
use go_advanced.Http.{Request, get}
use go_advanced.Agent.Reporter.{with_sum}

-- `http.Transport` asks for a compressed response.
abbrev pub transported : Request → Request
transported req = record req { header = insert "Accept-Encoding" "gzip" req.header }

-- The headers of a request with a sum, which may be empty.
pub sum_headers :
    (sum : String)
    → let header = insert "Accept-Encoding" "gzip" (
        with_sum sum
          (insert "Content-Encoding" "gzip" (insert "Content-Type" "application/json" []))) in
      (get "Content-Encoding" header ≡ "gzip")
      × (get "Content-Type" header ≡ "application/json")
      × (lookup "HashSHA256" header ≡ (if is_empty sum then none else some sum))
unfolding lookup insert get_or
sum_headers sum = elim (Bool-cases (is_empty sum)) [
  | inl e ↦ rw e (refl, refl, refl)
  | inr e ↦ rw e (refl, refl, refl)
]

-- So they are after the body was encrypted by the agent and decrypted by the server.
pub decrypted_headers :
    (sum : String)
    → let header = insert "Content-Type" "application/json" (
        insert "Accept-Encoding" "gzip" (
          insert "Content-Type" "application/octet-stream" (
            with_sum sum
              (insert "Content-Encoding" "gzip" (insert "Content-Type" "application/json" []))))) in
      (get "Content-Encoding" header ≡ "gzip")
      × (get "Content-Type" header ≡ "application/json")
      × (lookup "HashSHA256" header ≡ (if is_empty sum then none else some sum))
unfolding lookup insert get_or
decrypted_headers sum = elim (Bool-cases (is_empty sum)) [
  | inl e ↦ rw e (refl, refl, refl)
  | inr e ↦ rw e (refl, refl, refl)
]

-- the request after `encryptBody`, and before the handler behind `decryptBodyMiddleware`
abbrev pub encrypted_request : Request → String → Request
encrypted_request req text = record req {
  body = ok text;
  header = insert "Content-Type" "application/octet-stream" req.header;
}

abbrev pub decrypted_request : Request → String → Request
decrypted_request req text = record req {
  body = ok text;
  header = insert "Content-Type" "application/json" req.header;
}

pub encrypted_type :
    (header : GoMap String)
    → get "Content-Type"
        (insert "Accept-Encoding" "gzip" (insert "Content-Type" "application/octet-stream" header))
      ≡ "application/octet-stream"
unfolding get_or
encrypted_type header = rw (
  lookup-insert "Accept-Encoding" "Content-Type" "gzip"
      (insert "Content-Type" "application/octet-stream" header),
  lookup-insert_self "Content-Type" "application/octet-stream" header,
)
