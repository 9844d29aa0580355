-- ===== src/ConfigReader.antt =====
-- internal/app/pkg/configreader/configreader.go: the flags, the environment and a JSON file, read in
-- turn into one configuration. Logging is left out.
pub mod Precedence
use go_advanced.Base.{String, Option, none, some, is_empty, if◌then◌else◌}
use go_advanced.Entities.Errors.{Error, context}

-- the interface `config`; a source that fails leaves some state behind
pub record Config : Type 1 where
  pub State : Type 0
  pub parse_flags : State → Option Error × State
  pub read_env : State → Option Error × State
  pub json_config_path : State → String
  pub read_json_file : State → Option Error × State

-- `if err != nil { return fmt.Errorf("read config: %w", err) }`, and what follows
abbrev go_on : {C : Type 0} → Option Error × C → (C → Option Error × C) → Option Error × C
go_on (none, c) rest = rest c
go_on (some e, c) rest = (some (context "read config" e), c)

-- `Do`
unfoldable pub read_config : (cfg : Config) → cfg.State → Option Error × cfg.State
read_config cfg c = go_on (cfg.parse_flags c) λ c1. go_on (cfg.read_env c1) λ c2.
    if is_empty (cfg.json_config_path c2)
    then (none, c2)
    else go_on (cfg.read_json_file c2)
        λ c3. go_on (cfg.parse_flags c3) λ c4. go_on (cfg.read_env c4) λ c5. (none, c5)
