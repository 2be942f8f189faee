-- ===== src/Endian/Order.antt =====
-- The byte orders against one another, and words in the RAM.
use pxa_impedance_matcher.Base.{ℕ, ◌+◌, ◌*◌, ◌^◌, ◌<◌, ◌≡◌, refl, arith, View, IsBytes}
use pxa_impedance_matcher.Ram.{store}
use pxa_impedance_matcher.Endian.{
  swab32, swab64, be_to_cpu, cpu_to_be32, be32_to_cpu, fdt32_to_cpu, cpu_to_fdt32, fdt64_to_cpu,
  cpu_to_fdt64, load32, store32,
}

-- Swapping a 32-bit word twice gives it back.
pub swab32-swab32 : (x : ℕ) → x < 2 ^ 32 → swab32 (swab32 x) ≡ x
unfolding swab32
swab32-swab32 x lt = omega arith

-- The three ways in which the program swaps a 32-bit word agree.
pub fdt32_to_cpu-swab32 : (x : ℕ) → x < 2 ^ 32 → fdt32_to_cpu x ≡ swab32 x
unfolding swab32 fdt32_to_cpu
fdt32_to_cpu-swab32 x lt = omega arith

pub be_to_cpu-swab32 : (x : ℕ) → x < 2 ^ 32 → be_to_cpu x ≡ swab32 x
unfolding swab32 be_to_cpu
be_to_cpu-swab32 x lt = omega arith

-- types.h has no swap in cpu_to_be32, and one in be32_to_cpu: they are not inverse.
pub be32_to_cpu-cpu_to_be32 : (x : ℕ) → x < 2 ^ 32 → be32_to_cpu (cpu_to_be32 x) ≡ swab32 x
unfolding be32_to_cpu cpu_to_be32 swab32
be32_to_cpu-cpu_to_be32 x lt = omega arith

pub fdt32_to_cpu-cpu_to_fdt32 : (x : ℕ) → x < 2 ^ 32 → fdt32_to_cpu (cpu_to_fdt32 x) ≡ x
unfolding fdt32_to_cpu cpu_to_fdt32
fdt32_to_cpu-cpu_to_fdt32 x lt = omega arith

pub fdt64_to_cpu-cpu_to_fdt64 : (x : ℕ) → x < 2 ^ 64 → fdt64_to_cpu (cpu_to_fdt64 x) ≡ x
unfolding fdt64_to_cpu cpu_to_fdt64
fdt64_to_cpu-cpu_to_fdt64 x lt = omega arith

pub fdt64_to_cpu-swab64 : (x : ℕ) → x < 2 ^ 64 → fdt64_to_cpu x ≡ swab64 x
unfolding swab64 fdt64_to_cpu
fdt64_to_cpu-swab64 x lt = omega arith

-- What is stored is read back.
pub load32-store32 : (ram : View) (a x : ℕ) → x < 2 ^ 32 → load32 (store32 ram a x) a ≡ x
unfolding load32 store32 store
load32-store32 ram a x lt = ground arith

-- A word that a device tree holds, its high byte first.
pub fdt32_to_cpu-load32 :
    (ram : View) (a : ℕ)
    → IsBytes ram
    → fdt32_to_cpu (load32 ram a)
      ≡ 2 ^ 24 * ram a + 2 ^ 16 * ram (a + 1) + 2 ^ 8 * ram (a + 2) + ram (a + 3)
unfolding load32 fdt32_to_cpu
fdt32_to_cpu-load32 ram a bytes =
    omega (arith, bytes a, bytes (a + 1), bytes (a + 2), bytes (a + 3))

-- On a 32-bit word, the byte orders of the program agree: fdt32_to_cpu, cpu_to_fdt32, be_to_cpu and
-- be32_to_cpu reverse its bytes as swab32 does, which undoes itself; but cpu_to_be32 reverses
-- nothing.
pub byte_orders :
    (x : ℕ)
    → x < 2 ^ 32
    → (fdt32_to_cpu x ≡ swab32 x)
      × (cpu_to_fdt32 x ≡ swab32 x)
      × (be_to_cpu x ≡ swab32 x)
      × (be32_to_cpu x ≡ swab32 x)
      × (swab32 (swab32 x) ≡ x)
      × (cpu_to_be32 x ≡ x)
unfolding cpu_to_fdt32 be32_to_cpu cpu_to_be32
byte_orders x lt = (
  fdt32_to_cpu-swab32 x lt,
  fdt32_to_cpu-swab32 x lt,
  be_to_cpu-swab32 x lt,
  refl,
  swab32-swab32 x lt,
  omega arith,
)
