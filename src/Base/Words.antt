-- ===== src/Base/Words.antt =====
-- Unsigned 32-bit arithmetic (`unsigned int`, `size_t`, `count_t`, `uint32_t`), wrap-around written
-- out, and the page constants of include/core/mm/phys.h.
use Prim.Native.Nat.{ℕ, ◌+◌, ◌-◌, ◌*◌, ◌%◌, ◌^◌}

abbrev pub add32 : ℕ → ℕ → ℕ
add32 a b = (a + b) % 2 ^ 32

abbrev pub sub32 : ℕ → ℕ → ℕ
sub32 a b = (a + 2 ^ 32 - b) % 2 ^ 32

abbrev pub mul32 : ℕ → ℕ → ℕ
mul32 a b = a * b % 2 ^ 32

-- `PAGE_SIZE`
abbrev pub page_size : ℕ
page_size = 4096

-- `PHYS_PAGE_RESERVED`
abbrev pub page_reserved : ℕ
page_reserved = 0xffff_ffff

-- An `int` that is a negated error code.
abbrev pub neg32 : ℕ → ℕ
neg32 n = 2 ^ 32 - n
