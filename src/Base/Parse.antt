-- ===== src/Base/Parse.antt =====
-- `strconv.ParseInt(s, 10, 64)` of Go's standard library, into the bit pattern of an `int64`. The
-- digits are read as Go reads them: the first fault, of syntax or of range, ends the parse.
use Prim.Native.Char.{code}
use Prim.Native.String as Text
use go_advanced.Base.{
  ℕ, ◌+◌, ◌-◌, ◌*◌, ◌^◌, ◌%◌, ◌≡◌, refl, String, Bool, ◌&&◌, List, [], ◌∷◌, ltb, leb, ◌==◌,
  if◌then◌else◌,
}
use go_advanced.Base.Word.{int64_mod}

abbrev pub codes : String → List ℕ
codes Text.[] = []
codes (Text.◌∷◌ c s) = code c ∷ codes s

pub data ParseError : Type 0 where
  syntax range : ParseError

pub data Parsed : Type 0 where
  parsed : ℕ → Parsed
  failed : ParseError → Parsed

abbrev is_digit : ℕ → Bool
is_digit c = leb 48 c && leb c 57

-- the loop of `ParseUint`
unfoldable pub parse_digits : List ℕ → ℕ → Parsed
parse_digits [] n = parsed n
parse_digits (c ∷ cs) n =
    let n' = n * 10 + (c - 48) in
    let rest = parse_digits cs n' in
    if is_digit c then (if ltb n' (2 ^ 64) then rest else failed range) else failed syntax

abbrev parse_uint : List ℕ → Parsed
parse_uint [] = failed syntax
parse_uint (c ∷ cs) = parse_digits (c ∷ cs) 0

abbrev positive : Parsed → Parsed
positive (failed e) = failed e
positive (parsed n) = if ltb n (2 ^ 63) then parsed n else failed range

abbrev negative : Parsed → Parsed
negative (failed e) = failed e
negative (parsed n) = if leb n (2 ^ 63) then parsed ((int64_mod - n) % int64_mod) else failed range

unfoldable pub parse_signed : List ℕ → Parsed
parse_signed [] = failed syntax
parse_signed (c ∷ cs) =
    if c == b'-'
    then negative (parse_uint cs)
    else if c == b'+'
    then positive (parse_uint cs)
    else positive (parse_uint (c ∷ cs))

unfoldable pub parse_int : String → Parsed
unfolding parse_signed parse_digits
parse_int s = parse_signed (codes s)

parse_int_samples :
    (parse_int "1024" ≡ parsed 1024)
    × (parse_int "-1" ≡ parsed (2 ^ 64 - 1))
    × (parse_int "9223372036854775808" ≡ failed range)
    × (parse_int "-9223372036854775808" ≡ parsed (2 ^ 63))
    × (parse_int "+" ≡ failed syntax)
    × (parse_int "1_0" ≡ failed syntax)
unfolding parse_int
parse_int_samples = (refl, refl, refl, refl, refl, refl)
