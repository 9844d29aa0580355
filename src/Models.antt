-- ===== src/Models.antt =====
-- internal/models/metric.go: a metric as the agent and the server exchange it in JSON.
use go_advanced.Base.{ℕ, String, Option}

pub record Metric : Type 0 where
  pub id : String
  pub m_type : String
  pub delta : Option ℕ
  pub value : Option ℕ
