-- ===== src/Endian.antt =====
-- types.h, endian.h and the byte order functions of libfdt/libfdt_env.h: the bytes of a word, their
-- order, and a word in the RAM of a little-endian machine.
pub mod Order
use pxa_impedance_matcher.Base.{ℕ, ◌+◌, ◌*◌, ◌/◌, ◌%◌, ◌^◌, View, u8, u32, u64, shr, shl}
use pxa_impedance_matcher.Ram.{store}

-- `x & (0xff << k)`, the byte of `x` at bit `k` where it stands.
abbrev pub masked : ℕ → ℕ → ℕ
masked x k = x / 2 ^ k % 2 ^ 8 * 2 ^ k

-- The parts that the source joins by `|` have no bit in common, so they are added.
unfoldable pub swab32 : ℕ → ℕ
swab32 x =
    u32 (shl (masked x 0) 24)
    + u32 (shl (masked x 8) 8)
    + shr (masked x 16) 8
    + shr (masked x 24) 24

unfoldable pub swab64 : ℕ → ℕ
swab64 x =
    u64 (shl (masked x 0) 56)
    + u64 (shl (masked x 8) 40)
    + u64 (shl (masked x 16) 24)
    + u64 (shl (masked x 24) 8)
    + shr (masked x 32) 8
    + shr (masked x 40) 24
    + shr (masked x 48) 40
    + shr (masked x 56) 56

-- The macros of types.h that convert to big-endian only convert the type.
unfoldable pub cpu_to_be32 : ℕ → ℕ
cpu_to_be32 x = u32 x

unfoldable pub cpu_to_be64 : ℕ → ℕ
cpu_to_be64 x = u64 x

unfoldable pub be32_to_cpu : ℕ → ℕ
unfolding swab32
be32_to_cpu x = swab32 x

unfoldable pub be64_to_cpu : ℕ → ℕ
unfolding swab64
be64_to_cpu x = swab64 x

-- be_to_cpu of endian.h.
unfoldable pub be_to_cpu : ℕ → ℕ
be_to_cpu x =
    shr (masked x 24) 24
    + shr (masked x 16) 8
    + u32 (shl (masked x 8) 8)
    + u32 (shl (masked x 0) 24)

-- EXTRACT_BYTE(x, n): byte `n` of `x` in memory.
abbrev pub extract_byte : ℕ → ℕ → ℕ
extract_byte x n = x / 2 ^ (8 * n) % 2 ^ 8

unfoldable pub fdt16_to_cpu : ℕ → ℕ
fdt16_to_cpu x = shl (extract_byte x 0) 8 + extract_byte x 1

unfoldable pub fdt32_to_cpu : ℕ → ℕ
fdt32_to_cpu x =
    shl (extract_byte x 0) 24
    + shl (extract_byte x 1) 16
    + shl (extract_byte x 2) 8
    + extract_byte x 3

unfoldable pub fdt64_to_cpu : ℕ → ℕ
fdt64_to_cpu x =
    shl (extract_byte x 0) 56
    + shl (extract_byte x 1) 48
    + shl (extract_byte x 2) 40
    + shl (extract_byte x 3) 32
    + shl (extract_byte x 4) 24
    + shl (extract_byte x 5) 16
    + shl (extract_byte x 6) 8
    + extract_byte x 7

-- The conversions in the other direction are the same.
unfoldable pub cpu_to_fdt16 : ℕ → ℕ
unfolding fdt16_to_cpu
cpu_to_fdt16 x = fdt16_to_cpu x

unfoldable pub cpu_to_fdt32 : ℕ → ℕ
unfolding fdt32_to_cpu
cpu_to_fdt32 x = fdt32_to_cpu x

unfoldable pub cpu_to_fdt64 : ℕ → ℕ
unfolding fdt64_to_cpu
cpu_to_fdt64 x = fdt64_to_cpu x

-- A 32-bit word of the RAM, its low byte first.
unfoldable pub load32 : View → ℕ → ℕ
load32 ram a = ram a + 2 ^ 8 * ram (a + 1) + 2 ^ 16 * ram (a + 2) + 2 ^ 24 * ram (a + 3)

unfoldable pub store32 : View → ℕ → ℕ → View
store32 ram a x =
    store (store (store (store ram a (u8 x)) (a + 1) (u8 (shr x 8))) (a + 2) (u8 (shr x 16)))
      (a + 3) (u8 (shr x 24))
