-- ===== src/Pack/Bits.antt =====
-- The bit operations of the pack code on non-negative numbers, as arithmetic.
use git_on_cloudflare.Base.{ℕ, ◌+◌, ◌/◌, ◌%◌, ◌^◌, Bool, if◌then◌else◌, ◌==◌, ltb, leb}

-- `x & 0x0f` and `x & 0x7f`.
abbrev pub low4 : ℕ → ℕ
low4 x = x % 16

abbrev pub low7 : ℕ → ℕ
low7 x = x % 128

-- `(b & 0x80) !== 0` and `b | 0x80`.
abbrev pub has_bit7 : ℕ → Bool
has_bit7 b = b / 128 % 2 == 1

abbrev pub set_bit7 : ℕ → ℕ
set_bit7 b = if has_bit7 b then b else b + 128

-- `x >>> 0`.
abbrev pub to_uint32 : ℕ → ℕ
to_uint32 x = x % 2 ^ 32

-- `x >> 0` is negative: bit 31 is set.
abbrev pub is_negative32 : ℕ → Bool
is_negative32 x = leb (2 ^ 31) (x % 2 ^ 32)

-- `Number.isSafeInteger` of a non-negative number.
abbrev pub is_safe_integer : ℕ → Bool
is_safe_integer x = ltb x (2 ^ 53)
