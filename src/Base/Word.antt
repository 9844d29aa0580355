-- ===== src/Base/Word.antt =====
-- Go's `int64` as its bit pattern, a number below 2 ^ 64: `+` wraps, and the sign is in the top bit.
use go_advanced.Base.{ℕ, ◌+◌, ◌%◌, ◌^◌, ◌<◌, ◌≡◌, arith}

abbrev pub int64_mod : ℕ
int64_mod = 2 ^ 64

-- `a + b`
unfoldable pub add_int64 : ℕ → ℕ → ℕ
add_int64 a b = (a + b) % int64_mod

pub add_int64-lt : (a b : ℕ) → add_int64 a b < int64_mod
unfolding add_int64
add_int64-lt a b = omega arith

pub add_int64_assoc : (a b c : ℕ) → add_int64 (add_int64 a b) c ≡ add_int64 a (add_int64 b c)
unfolding add_int64
add_int64_assoc a b c = omega arith

pub add_int64_comm : (a b : ℕ) → add_int64 a b ≡ add_int64 b a
unfolding add_int64
add_int64_comm a b = omega arith

pub add_int64_zero : (a : ℕ) → a < int64_mod → add_int64 0 a ≡ a
unfolding add_int64
add_int64_zero a h = omega arith
