-- ===== src/Entities/Errors.antt =====
-- internal/entities/errors.go: the errors of the program, and `errors.Is` and `errors.As` of Go's
-- standard library on them, which walk down what `Unwrap` returns.
use go_advanced.Base.{◌≡◌, refl, ◌⊎◌, inl, inr, String, Bool, true, false, Option, none, some, ◌<>◌}
use go_advanced.Entities.{MetricName}

-- `context` is an error that `fmt.Errorf("…: %w", err)` returns. `no_rows` is `pgx.ErrNoRows`,
-- `pg_error` a `pgconn.PgError` with its code, and `library` any other error of a library.
pub data Error : Type 0 where
  empty_metric_name json_request_expected missing_value missing_delta : Error
  invalid_metric_type : String → Error
  metric_name_not_found : MetricName → Error
  metric_value_is_not_valid : Error → Error
  json_request_decode : Error → Error
  internal : String → Error
  internal_of : String → Error → Error
  context : String → Error → Error
  no_rows : Error
  pg_error : String → Error
  library : String → Error

-- `NewInternalError(message, err)`
abbrev pub new_internal : String → Option Error → Error
new_internal message none = internal message
new_internal message (some err) = internal_of message err

-- the `Error` methods
unfoldable pub error_text : Error → String
error_text empty_metric_name = "empty metric name"
error_text json_request_expected = "expected Content-Type=application/json"
error_text missing_value = "missing value"
error_text missing_delta = "missing delta"
error_text (invalid_metric_type t) = "invalid metric type: " <> t
error_text (metric_name_not_found n) = "metric name not found: " <> n
error_text (metric_value_is_not_valid e) = "invalid metric value: " <> error_text e
error_text (json_request_decode e) = "json request decoding: " <> error_text e
error_text (internal m) = "internal error: " <> m
error_text (internal_of m e) = "internal error: " <> m <> ": " <> error_text e
error_text (context m e) = m <> ": " <> error_text e
error_text no_rows = "no rows in result set"
error_text (pg_error code) = "SQLSTATE " <> code
error_text (library m) = m

-- `errors.Is` with one of the errors that have no state, and `errors.As` with one of the types:
-- true if some error on the chain of `Unwrap` passes the test.
unfoldable pub on_chain : (Error → Bool) → Error → Bool
on_chain test (metric_value_is_not_valid e) =
    let rest = on_chain test e in
    elim (test (metric_value_is_not_valid e)) [ true ↦ true | false ↦ rest ]
on_chain test (json_request_decode e) =
    let rest = on_chain test e in elim (test (json_request_decode e)) [ true ↦ true | false ↦ rest ]
on_chain test (internal_of m e) =
    let rest = on_chain test e in elim (test (internal_of m e)) [ true ↦ true | false ↦ rest ]
on_chain test (context m e) =
    let rest = on_chain test e in elim (test (context m e)) [ true ↦ true | false ↦ rest ]
on_chain test e = test e

-- the tests on one error
abbrev pub is_empty_metric_name : Error → Bool
is_empty_metric_name empty_metric_name = true
is_empty_metric_name _ = false

abbrev pub is_json_request_expected : Error → Bool
is_json_request_expected json_request_expected = true
is_json_request_expected _ = false

abbrev pub is_missing_value : Error → Bool
is_missing_value missing_value = true
is_missing_value _ = false

abbrev pub is_missing_delta : Error → Bool
is_missing_delta missing_delta = true
is_missing_delta _ = false

abbrev pub is_invalid_metric_type : Error → Bool
is_invalid_metric_type (invalid_metric_type t) = true
is_invalid_metric_type _ = false

abbrev pub is_metric_name_not_found : Error → Bool
is_metric_name_not_found (metric_name_not_found n) = true
is_metric_name_not_found _ = false

abbrev pub is_metric_value_is_not_valid : Error → Bool
is_metric_value_is_not_valid (metric_value_is_not_valid e) = true
is_metric_value_is_not_valid _ = false

abbrev pub is_json_request_decode : Error → Bool
is_json_request_decode (json_request_decode e) = true
is_json_request_decode _ = false

abbrev pub is_internal : Error → Bool
is_internal (internal m) = true
is_internal (internal_of m e) = true
is_internal _ = false

abbrev pub is_no_rows : Error → Bool
is_no_rows no_rows = true
is_no_rows _ = false

-- What a Go function returns as `(T, error)`.
pub data Result {ℓ} (A : Type ℓ) : Type ℓ where
  ok : A → Result A
  err : Error → Result A

infixl 5 ◌>>=◌ ◌>>◌
abbrev pub ◌>>=◌ {ℓ κ} : {A : Type ℓ} {B : Type κ} → Result A → (A → Result B) → Result B
ok a >>= f = f a
err e >>= f = err e

abbrev pub ◌>>◌ {ℓ κ} : {A : Type ℓ} {B : Type κ} → Result A → Result B → Result B
m >> k = m >>= λ _. k

pub Result-cases {ℓ} :
    {A : Type ℓ} (r : Result A) → ((a : A) × (r ≡ ok a)) ⊎ ((e : Error) × (r ≡ err e))
Result-cases (ok a) = inl (a, refl)
Result-cases (err e) = inr (e, refl)

pub ok_inj {ℓ} : {A : Type ℓ} {a b : A} → ok a ≡ ok b → a ≡ b
ok_inj e = cc

-- `P` of the value, if there is one
abbrev pub OnOk {ℓ κ} : {A : Type ℓ} → (A → Type κ) → Result A → Type κ
OnOk P (ok a) = P a
OnOk P (err e) = Unit
