-- ===== src/ConfigReader/Precedence.antt =====
-- Which source a field of the configuration comes from.
use go_advanced.Base.{String, ◌≡◌, Option, none, some}
use go_advanced.Entities.Errors.{Error}
use go_advanced.ConfigReader.{Config}

-- a value where the source has one, and else the one that was there
abbrev pub over : {V : Type 0} → Option V → V → V
over none old = old
over (some new) old = new

-- A source of the configuration that can be read, and sets the fields that it has.
abbrev pub Sets : {C K V : Type 0} → (K → C → V) → (C → Option Error × C) → (K → Option V) → Type 0
Sets {C} {K} field source values =
    (c : C)
    → (c' : C) × (source c ≡ (none, c')) × ((k : K) → field k c' ≡ over (values k) (field k c))

-- The three sources, the field that holds the path of the JSON file, and the file that is there. The
-- environment does not set the path, and the JSON file is read from a state that names it.
pub record IsLayered (cfg : Config) {K V : Type 0} (field : K → cfg.State → V)
    (flags env json : K → Option V) (path : K) (text : V → String) (file : String) : Type 0 where
  pub parse_flags_law : Sets field cfg.parse_flags flags
  pub read_env_law : Sets field cfg.read_env env
  pub read_json_file_law :
      (c : cfg.State)
      → cfg.json_config_path c ≡ file
      → (c' : cfg.State) × (cfg.read_json_file c ≡ (none, c'))
        × ((k : K) → field k c' ≡ over (json k) (field k c))
  pub path_law : (c : cfg.State) → cfg.json_config_path c ≡ text (field path c)
  pub unexported : env path ≡ none
