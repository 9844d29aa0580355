-- ===== src/Base/Decimal.antt =====
-- `strconv.Itoa` and `fmt.Sprint` of Go's standard library on integers: decimal text.
use Prim.Native.String as Text
use go_advanced.Base.{
  ℕ, zero, suc, ◌+◌, ◌-◌, ◌/◌, ◌%◌, ◌^◌, ◌≡◌, refl, String, ltb, ◌<>◌, if◌then◌else◌,
}
use go_advanced.Base.Word.{int64_mod}

abbrev digit : ℕ → String
digit d = Text.slice "0123456789" d (d + 1)

-- The digits of a number below 10 ^ fuel.
digits : ℕ → ℕ → String
digits zero n = ""
digits (suc fuel) n =
    let rest = digits fuel (n / 10) in if ltb n 10 then digit n else rest <> digit (n % 10)

-- A number below 2 ^ 64 has at most 20 digits.
unfoldable pub utoa : ℕ → String
unfolding digits
utoa = digits 20

-- A signed integer from its bit pattern.
unfoldable pub itoa : ℕ → String
unfolding utoa
itoa w = if ltb w (2 ^ 63) then utoa w else "-" <> utoa (int64_mod - w)

itoa_samples : (itoa 1024 ≡ "1024") × (itoa (2 ^ 64 - 15) ≡ "-15") × (itoa 0 ≡ "0")
unfolding itoa
itoa_samples = (refl, refl, refl)
