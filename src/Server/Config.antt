-- ===== src/Server/Config.antt =====
-- internal/app/server/config.go: the configuration of the server. The libraries `flag`, `env`, `os`
-- and `encoding/json` come in as `Sources`. What the code uses of `regexp` and `strings.Replace` is
-- written out for its one expression.
pub mod Password
use Prim.Native.Char.{code}
use Prim.Native.String as Text
use text.Mathlib.Text.{starts_with}
use go_advanced.Base.{
  ℕ, zero, suc, ◌+◌, ◌-◌, String, ◌<>◌, Bool, false, ◌&&◌, ◌||◌, leb, ◌==◌, Option, none, some,
  List, [], ◌∷◌, is_empty, if◌then◌else◌,
}
use go_advanced.Base.Int.{ℤ, pos}
use go_advanced.Entities.Errors.{Error, context, library}
use go_advanced.ConfigReader

pub record Config : Type 0 where
  pub json_config_path : String
  pub server_address : String
  pub store_interval : ℤ
  pub file_storage_path : String
  pub restore : Bool
  pub database_dsn : String
  pub key : String
  pub crypto_key : String

-- `NewConfig`; the flags that it declares are those of `Sources.parse`
abbrev pub new_config : Config
new_config = record {
  json_config_path = "";
  server_address = "localhost:8080";
  store_interval = pos 300;
  file_storage_path = "metrics.json";
  restore = false;
  database_dsn = "";
  key = "";
  crypto_key = "";
}

-- What the libraries do: `parse` is `flag.CommandLine.Parse` on the arguments, which sets the fields
-- of the flags that are given, `n_arg` the number of the arguments that it leaves, `parse_env` is
-- `env.Parse`, `open_file` `os.Open`, and `decode` the JSON decoder on the file.
pub record Sources (C : Type 0) : Type 0 where
  pub parse : C → Option Error × C
  pub n_arg : ℕ
  pub parse_env : C → Option Error × C
  pub open_file : String → Option Error
  pub decode : String → C → Option Error × C

module _ {C : Type 0} where
  -- `if err != nil { return fmt.Errorf("…: %w", err) }`
  abbrev pub wrapped : String → Option Error × C → Option Error × C
  wrapped m (none, c) = (none, c)
  wrapped m (some e, c) = (some (context m e), c)

  abbrev pub without_arguments : ℕ → Option Error × C → Option Error × C
  without_arguments n (some e, c) = (some e, c)
  without_arguments zero (none, c) = (none, c)
  without_arguments (suc n) (none, c) = (some (library "no positional arguments expected"), c)

  -- `ReadJSONFile` on a file that is open or not
  abbrev pub decoded : Option Error → C → Option Error × C → Option Error × C
  decoded (some e) c r = (some (context "read json file" e), c)
  decoded none c r = wrapped "read json file" r

unfoldable pub parse_flags : Sources Config → Config → Option Error × Config
parse_flags sources c = without_arguments sources.n_arg (wrapped "parse flags" (sources.parse c))

unfoldable pub read_env : Sources Config → Config → Option Error × Config
read_env sources c = wrapped "read env" (sources.parse_env c)

unfoldable pub read_json_file : Sources Config → Config → Option Error × Config
read_json_file sources c =
    decoded (sources.open_file c.json_config_path) c (sources.decode c.json_config_path c)

-- the server's side of the interface of the reader
abbrev pub reader_config : Sources Config → ConfigReader.Config
reader_config sources = record {
  State = Config;
  parse_flags = parse_flags sources;
  read_env = read_env sources;
  json_config_path = λ c. c.json_config_path;
  read_json_file = read_json_file sources;
}

abbrev pub redacted : String → String
redacted key = if is_empty key then key else "[redacted]"

-- A character of the expression in lower case, under the flag `i`: the two cases of a letter are the
-- same, and so is the long s, which `unicode.SimpleFold` ties to s.
abbrev pub folds : ℕ → ℕ → Bool
folds p c = (p == c) || (leb 97 p && leb p 122) && ((p == c + 32) || (p == 115) && (c == 383))

-- what follows a match of a word of the expression, given by its codes
abbrev pub after_word : List ℕ → String → Option String
after_word [] s = some s
after_word (p ∷ ps) Text.[] = none
after_word (p ∷ ps) (Text.◌∷◌ c s) = if folds p (code c) then after_word ps s else none

-- `\s`, which is a blank, a tab, a line feed, a form feed or a carriage return
abbrev pub is_space : ℕ → Bool
is_space n = (n == 32) || (n == 9) || (n == 10) || (n == 12) || (n == 13)

-- `[^\s]*`, as long as it gets
abbrev pub non_spaces : String → String
non_spaces Text.[] = ""
non_spaces (Text.◌∷◌ c s) = if is_space (code c) then "" else Text.◌∷◌ c (non_spaces s)

-- `password=`
abbrev pub password_is : List ℕ
password_is = 112 ∷ 97 ∷ 115 ∷ 115 ∷ 119 ∷ 111 ∷ 114 ∷ 100 ∷ 61 ∷ []

-- the group of a match, from what follows `password=`: it has a character at least
abbrev pub group_of : Option String → Option String
group_of none = none
group_of (some rest) = if is_empty (non_spaces rest) then none else some (non_spaces rest)

-- the group of a match at the beginning of the text
abbrev pub group_here : String → Option String
group_here s = group_of (after_word password_is s)

-- the first of two that is there
abbrev pub first_of : Option String → Option String → Option String
first_of none rest = rest
first_of (some password) rest = some password

-- the group of the first match, `match[1]`, where `FindStringSubmatch` finds one
abbrev pub find_password : String → Option String
find_password Text.[] = none
find_password (Text.◌∷◌ c s) = first_of (group_here (Text.◌∷◌ c s)) (find_password s)

-- how many characters a text has
abbrev pub rune_count : String → ℕ
rune_count Text.[] = 0
rune_count (Text.◌∷◌ c s) = suc (rune_count s)

-- `strings.Replace(s, old, new, -1)` for an `old` that is not empty; the number counts the characters
-- of a replaced `old` that are still to be passed over
abbrev pub replace_all : ℕ → String → String → String → String
replace_all n old new Text.[] = ""
replace_all (suc n) old new (Text.◌∷◌ c s) = replace_all n old new s
replace_all zero old new (Text.◌∷◌ c s) =
    if starts_with (Text.◌∷◌ c s) old
    then new <> replace_all (rune_count old - 1) old new s
    else Text.◌∷◌ c (replace_all zero old new s)

-- the database password hidden
abbrev pub without_group : String → Option String → String
without_group dsn none = dsn
without_group dsn (some password) = replace_all 0 password "[redacted]" dsn

abbrev pub without_password : String → String
without_password dsn = without_group dsn (find_password dsn)

-- `LogValue`: what is logged of each field
unfoldable pub log_value : Config → Config
log_value c = record c { database_dsn = without_password c.database_dsn; key = redacted c.key }
