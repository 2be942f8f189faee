-- ===== src/Fdt.antt =====
-- libfdt, which is another project's library: what the program calls of it, as operations on a device
-- tree at an address of the RAM, and the inline functions that its header builds on them. Names and
-- paths are string literals of the program.
pub mod Header
pub mod Errors
pub mod Contract
pub mod Cells
use pxa_impedance_matcher.Base.{ℕ, List, View}
use pxa_impedance_matcher.Base.Int.{ℤ}
use pxa_impedance_matcher.Endian.{cpu_to_fdt32, store32}

-- What fdt_getprop returns: the address of a value and its length, which is stored to `*lenp`; or
-- NULL, with the error stored there.
pub data Property : Type 0 where
  value : ℕ → ℕ → Property
  missing : ℤ → Property

-- A tree is at an address, a node at an offset in it. An operation that changes a tree has the RAM
-- after the call, and its result.
pub record Fdt : Type 0 where
  pub path_offset : View → ℕ → List ℕ → ℤ
  pub getprop : View → ℕ → ℤ → List ℕ → Property
  pub setprop : View → ℕ → ℤ → List ℕ → View → ℕ → ℕ → View × ℤ
  pub add_subnode : View → ℕ → ℤ → List ℕ → View × ℤ
  pub open_into : View → ℕ → ℕ → ℕ → View × ℤ
  pub pack : View → ℕ → View × ℤ

-- The local variable `tmp` of fdt_setprop_u32, a word of its own.
unfoldable pub big_endian : ℕ → View
big_endian val = store32 (λ _. 0) 0 (cpu_to_fdt32 val)

module _ (fdt : Fdt) where
  unfoldable pub setprop_u32 : View → ℕ → ℤ → List ℕ → ℕ → View × ℤ
  unfolding big_endian
  setprop_u32 ram dtb off name val = fdt.setprop ram dtb off name (big_endian val) 0 4

  -- Another name for it.
  unfoldable pub fdt_setprop_cell : View → ℕ → ℤ → List ℕ → ℕ → View × ℤ
  unfolding setprop_u32
  fdt_setprop_cell ram dtb off name val = setprop_u32 ram dtb off name val
