-- ===== src/Fdt/Header/Fields.antt =====
-- The fields of the header of a device tree, read and written.
use pxa_impedance_matcher.Base.{
  ℕ, ◌+◌, ◌*◌, ◌^◌, ◌≤◌, ◌<◌, ◌≡◌, ◌≢◌, ◌⊎◌, ◌∙◌, ap, inl, inr, arith, ltb, Bool-cases, View,
}
use pxa_impedance_matcher.Ram.{store}
use pxa_impedance_matcher.Endian.{load32, store32, fdt32_to_cpu, cpu_to_fdt32}
use pxa_impedance_matcher.Endian.Order.{load32-store32, fdt32_to_cpu-cpu_to_fdt32}
use pxa_impedance_matcher.Fdt.Header.{Field, index_of, get_header, set_header}

-- A word is as it was where another is stored.
load32-apart :
    (ram : View) (a b x : ℕ) → (a + 4 ≤ b) ⊎ (b + 4 ≤ a) → load32 (store32 ram a x) b ≡ load32 ram b
unfolding load32 store32 store
load32-apart ram a b x (inl below) = ground arith
load32-apart ram a b x (inr above) = ground arith

cpu_to_fdt32-lt : (x : ℕ) → x < 2 ^ 32 → cpu_to_fdt32 x < 2 ^ 32
unfolding cpu_to_fdt32
cpu_to_fdt32-lt x lt = omega arith

-- A field of the header that is set to a 32-bit number reads that number, and every other field
-- reads what it read.
pub get_header-set_header :
    (ram : View) (fdt : ℕ) (f : Field) (val : ℕ)
    → val < 2 ^ 32
    → (get_header (set_header ram fdt f val) fdt f ≡ val)
      × ((other : Field)
          → index_of other ≢ index_of f
          → get_header (set_header ram fdt f val) fdt other ≡ get_header ram fdt other)
unfolding get_header set_header
get_header-set_header ram fdt f val lt = (
  ap fdt32_to_cpu
        (load32-store32 ram (fdt + 4 * index_of f) (cpu_to_fdt32 val) (cpu_to_fdt32-lt val lt))
      ∙ fdt32_to_cpu-cpu_to_fdt32 val lt,
  λ other differs. ap fdt32_to_cpu (
      load32-apart ram (fdt + 4 * index_of f) (fdt + 4 * index_of other) (cpu_to_fdt32 val)
        (apart (index_of f) (index_of other) differs)),
)
  where
    apart : (i j : ℕ) → j ≢ i → (fdt + 4 * i + 4 ≤ fdt + 4 * j) ⊎ (fdt + 4 * j + 4 ≤ fdt + 4 * i)
    apart i j differs = elim (Bool-cases (ltb i j)) [
      | inl less ↦ inl (ground arith)
      | inr more ↦ inr (ground arith)
    ]
