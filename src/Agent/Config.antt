-- ===== src/Agent/Config.antt =====
-- internal/app/agent/config.go: the configuration of the agent. The libraries come in as in the
-- configuration of the server.
use go_advanced.Base.{String, Option}
use go_advanced.Base.Int.{ℤ, pos}
use go_advanced.Entities.Errors.{Error}
use go_advanced.ConfigReader
use go_advanced.Server.Config.{Sources, wrapped, without_arguments, decoded, redacted}

pub record Config : Type 0 where
  pub json_config_path : String
  pub poll_interval_sec : ℤ
  pub report_interval_sec : ℤ
  pub server_address : String
  pub key : String
  pub rate_limit : ℤ
  pub crypto_key : String

-- `NewConfig`; the flags that it declares are those of `Sources.parse`
abbrev pub new_config : Config
new_config = record {
  json_config_path = "";
  poll_interval_sec = pos 2;
  report_interval_sec = pos 10;
  server_address = "localhost:8080";
  key = "";
  rate_limit = pos 1;
  crypto_key = "";
}

-- `LogValue`: what is logged of each field
unfoldable pub log_value : Config → Config
log_value c = record c { key = redacted c.key }

unfoldable pub parse_flags : Sources Config → Config → Option Error × Config
parse_flags sources c = without_arguments sources.n_arg (wrapped "parse flags" (sources.parse c))

unfoldable pub read_env : Sources Config → Config → Option Error × Config
read_env sources c = wrapped "read env" (sources.parse_env c)

unfoldable pub read_json_file : Sources Config → Config → Option Error × Config
read_json_file sources c =
    decoded (sources.open_file c.json_config_path) c (sources.decode c.json_config_path c)

-- the agent's side of the interface of the reader
abbrev pub reader_config : Sources Config → ConfigReader.Config
reader_config sources = record {
  State = Config;
  parse_flags = parse_flags sources;
  read_env = read_env sources;
  json_config_path = λ c. c.json_config_path;
  read_json_file = read_json_file sources;
}
