-- ===== src/Middleware/Encoding.antt =====
-- internal/middleware/encoding.go: a compressed request is read through gzip, and a response of a
-- suitable type is compressed. `compress/gzip` comes in as `Gzip`.
pub mod Statuses
use text.Mathlib.Text.{find?}
use go_advanced.Base.{
  String, ◌≡◌, Bool, true, false, none, some, List, [], ◌∷◌, ◌||◌, str_eq, ◌<>◌, if◌then◌else◌,
}
use go_advanced.Base.Exec.{returned}
use go_advanced.Entities.Errors.{error_text, Result, ok, err}
use go_advanced.GoMap.{GoMap, insert}
use go_advanced.Http.{get, Action, set_header, write_header, write, http_error}
use go_advanced.Middleware.{Handler, finish}

pub record Gzip : Type 0 where
  -- what the first `Write` puts out, and the rest by the time that `Close` returns
  pub head : String
  pub rest : String → String
  -- `gzip.NewReader`, and what reading from it to the end gives
  pub new_reader : Result String → Result (Result String)

-- What was compressed is read back.
pub record IsGzip (z : Gzip) : Type 0 where
  pub reads_back : (text : String) → z.new_reader (ok (z.head <> z.rest text)) ≡ ok (ok text)

-- `strings.Contains(s, "gzip")`
abbrev pub contains_gzip : String → Bool
contains_gzip s = elim (find? s "gzip") [ none ↦ false | some _ ↦ true ]

-- `slices.Contains([]string{…}, …)`
abbrev pub is_compressible : String → Bool
is_compressible t = str_eq "application/json" t || str_eq "text/html" t

module _ (z : Gzip) where
  -- `compressibleWriter` once its `compress` is true: what was written so far stands in `text`
  compressing : List Action → String → List Action
  compressing [] text = write (z.rest text) ∷ []
  compressing (write t ∷ acts) text = compressing acts (text <> t)
  compressing (set_header k v ∷ acts) text = set_header k v ∷ compressing acts text
  compressing (write_header code ∷ acts) text = write_header code ∷ compressing acts text

  -- before the first `Write`; `header` is what `Header()` holds
  unfoldable pub compressed : List Action → GoMap String → List Action
  unfolding compressing
  compressed [] header = []
  compressed (set_header k v ∷ acts) header = set_header k v ∷ compressed acts (insert k v header)
  compressed (write_header code ∷ acts) header = write_header code ∷ compressed acts header
  compressed (write t ∷ acts) header =
      if is_compressible (get "Content-Type" header)
      then set_header "Content-Encoding" "gzip" ∷ write z.head ∷ compressing acts t
      else write t ∷ acts

  abbrev with_reader :
      {S : Type 0} → Handler S → (List Action → List Action) → Result (Result String) → Handler S
  with_reader next answer (err e) req s = returned (http_error (error_text e) 500) s
  with_reader next answer (ok body) req s = finish answer (next (record req { body = body }) s)

  -- `Encoding`
  unfoldable pub encoding : {S : Type 0} → Handler S → Handler S
  unfolding compressed
  encoding next req s =
      let answer = λ (acts : List Action).
        if contains_gzip (get "Accept-Encoding" req.header) then compressed acts [] else acts in
      if contains_gzip (get "Content-Encoding" req.header)
      then with_reader next answer (z.new_reader req.body) req s
      else finish answer (next req s)
