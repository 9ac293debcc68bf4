-- ===== src/Base/Words.antt =====
-- Machine integers as native numbers, with the wrap-around of a release build written out.
use Prim.Native.Nat.{ℕ, ◌+◌, ◌-◌, ◌*◌, ◌%◌, ◌^◌}
use kcp_server.Base.Tests.{ltb, if◌then◌else◌}
use kcp_server.Base.Int.{ℤ, pos, negsuc, ◌-ℤ◌}

abbrev pub u8_mod : ℕ
u8_mod = 2 ^ 8

abbrev pub u16_mod : ℕ
u16_mod = 2 ^ 16

abbrev pub u32_mod : ℕ
u32_mod = 2 ^ 32

abbrev pub u32_max : ℕ
u32_max = 2 ^ 32 - 1

abbrev pub usize_max : ℕ
usize_max = 2 ^ 64 - 1

abbrev pub as_u8 : ℕ → ℕ
as_u8 a = a % u8_mod

abbrev pub as_u16 : ℕ → ℕ
as_u16 a = a % u16_mod

abbrev pub as_u32 : ℕ → ℕ
as_u32 a = a % u32_mod

abbrev pub add_u16 : ℕ → ℕ → ℕ
add_u16 a b = (a + b) % u16_mod

abbrev pub add_u32 : ℕ → ℕ → ℕ
add_u32 a b = (a + b) % u32_mod

abbrev pub sub_u32 : ℕ → ℕ → ℕ
sub_u32 a b = (a + u32_mod - b) % u32_mod

abbrev pub mul_u32 : ℕ → ℕ → ℕ
mul_u32 a b = (a * b) % u32_mod

-- `w as i32`, of a word below 2 ^ 32.
abbrev pub as_i32 : ℕ → ℤ
as_i32 w = if ltb w (2 ^ 31) then pos w else negsuc (u32_max - w)

-- The bit pattern of an integer, cut to 32 bits.
abbrev pub low_word : ℤ → ℕ
low_word (pos n) = n % u32_mod
low_word (negsuc n) = u32_max - n % u32_mod

-- i32 subtraction.
abbrev pub sub_i32 : ℤ → ℤ → ℤ
sub_i32 a b = as_i32 (low_word (a -ℤ b))
