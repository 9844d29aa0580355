-- ===== src/Entities.antt =====
-- internal/entities: the metric that the business logic works on. A gauge is a `float64`, which the
-- program only moves and prints, so it is kept as its bit pattern (0 is the zero value 0.0).
-- A counter is an `int64`, as its bit pattern.
pub mod Errors
use go_advanced.Base.{ℕ, String, ◌<>◌}
use go_advanced.Base.Decimal.{itoa}

abbrev pub Gauge : Type 0
Gauge = ℕ

abbrev pub Counter : Type 0
Counter = ℕ

abbrev pub MetricName : Type 0
MetricName = String

-- `other` is an `int` outside the enumeration.
pub data MetricType : Type 0 where
  undefined gauge counter : MetricType
  other : ℕ → MetricType

-- `int(t)`
abbrev pub to_int : MetricType → ℕ
to_int undefined = 0
to_int gauge = 1
to_int counter = 2
to_int (other n) = n

-- the `switch` of `String`
abbrev as_str : MetricType → String
as_str undefined = "undefined"
as_str gauge = "gauge"
as_str counter = "counter"
as_str (other n) = "unexpected"

unfoldable pub type_text : MetricType → String
type_text t = itoa (to_int t) <> " (i.e. " <> as_str t <> ")"

pub record Metric : Type 0 where
  pub type : MetricType
  pub name : MetricName
  pub value : Gauge
  pub delta : Counter
