-- ===== src/Server/Config/Password.antt =====
-- The password of the database in what the server logs of its configuration.
use Prim.Native.Char.{Char, char, code}
use Prim.Native.String as Text
use Prim.Native.String.{◌++◌}
use text.Mathlib.Text.{starts_with}
use Prim.Native.String.append
use mathlib.Core.Option
use go_advanced.Base.{String, ◌≡◌, true, false, Option, [], ◌∷◌}
use go_advanced.Server.Config.{Config, is_space}

-- no character of the text is a space
abbrev pub IsWord : String → Type 0
IsWord Text.[] = Unit
IsWord (Text.◌∷◌ c s) = (is_space (code c) ≡ false) × IsWord s

-- the text is empty or begins with a space
abbrev pub IsSeparated : String → Type 0
IsSeparated Text.[] = Unit
IsSeparated (Text.◌∷◌ c s) = is_space (code c) ≡ true

-- at no character of `s` does `w` stand in `s ++ t`
abbrev pub IsAbsent : String → String → String → Type 0
IsAbsent w Text.[] t = Unit
IsAbsent w (Text.◌∷◌ c s) t = (starts_with (Text.◌∷◌ c (s ++ t)) w ≡ false) × IsAbsent w s t

abbrev space : Char
space = char 32 tt
