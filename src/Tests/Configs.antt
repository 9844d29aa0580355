-- ===== src/Tests/Configs.antt =====
-- The reading and the logging of a configuration of the server.
use go_advanced.Base.{String, ◌≡◌, refl, Option, none, some, str_eq, if◌then◌else◌}
use go_advanced.Entities.Errors.{library}
use go_advanced.Server.Config.{Config, new_config, Sources, log_value}

-- the flags name a JSON file, the environment an address, and the file an address and a DSN
abbrev sources : Sources Config
sources = record {
  parse = λ c. (none, record c { json_config_path = "server.json" });
  n_arg = 0;
  parse_env = λ c. (none, record c { server_address = "localhost:1" });
  open_file = λ path. if str_eq path "server.json" then none else some (library "no such file");
  decode = λ path c. (none, record c { server_address = "localhost:2"; database_dsn = "host=h" });
}

-- some of the fields that are texts
data Name : Type 0 where
  path : Name
  address : Name
  dsn : Name
  secret : Name

abbrev field : Name → Config → String
field path c = c.json_config_path
field address c = c.server_address
field dsn c = c.database_dsn
field secret c = c.key

abbrev flags : Name → Option String
flags path = some "server.json"
flags address = none
flags dsn = none
flags secret = none

abbrev env : Name → Option String
env path = none
env address = some "localhost:1"
env dsn = none
env secret = none

abbrev json : Name → Option String
json path = none
json address = some "localhost:2"
json dsn = some "host=h"
json secret = none

-- a DSN with a password, also in capitals, one as a URL, and one without
log_value_words :
    (log_value (record new_config { key = "k"; database_dsn = "host=h Password=one db=d" })
      ≡ record new_config { key = "[redacted]"; database_dsn = "host=h Password=[redacted] db=d" })
    × ((log_value (record new_config { database_dsn = "password=" })).database_dsn ≡ "password=")
    × ((log_value (record new_config { database_dsn = "postgres://u:one@h/d" })).database_dsn
        ≡ "postgres://u:one@h/d")
unfolding log_value
log_value_words = (refl, refl, refl)
