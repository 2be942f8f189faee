-- ===== src/Fdt/Header.antt =====
-- The header of a device tree: `struct fdt_header` of libfdt/fdt.h, and the accessors that
-- libfdt/libfdt.h has for its fields as macros.
pub mod Fields
use pxa_impedance_matcher.Base.{ℕ, ◌+◌, ◌*◌, View}
use pxa_impedance_matcher.Endian.{fdt32_to_cpu, cpu_to_fdt32, load32, store32}

-- FDT_MAGIC
abbrev pub fdt_magic : ℕ
fdt_magic = 0xd00dfeed

-- The fields, each of 32 bits.
pub data Field : Type 0 where
  magic : Field
  totalsize : Field
  off_dt_struct : Field
  off_dt_strings : Field
  off_mem_rsvmap : Field
  version : Field
  last_comp_version : Field
  boot_cpuid_phys : Field
  size_dt_strings : Field
  size_dt_struct : Field

abbrev pub index_of : Field → ℕ
index_of magic = 0
index_of totalsize = 1
index_of off_dt_struct = 2
index_of off_dt_strings = 3
index_of off_mem_rsvmap = 4
index_of version = 5
index_of last_comp_version = 6
index_of boot_cpuid_phys = 7
index_of size_dt_strings = 8
index_of size_dt_struct = 9

-- fdt_get_header(fdt, field)
unfoldable pub get_header : View → ℕ → Field → ℕ
get_header ram fdt field = fdt32_to_cpu (load32 ram (fdt + 4 * index_of field))

-- fdt_set_hdr_(name)
unfoldable pub set_header : View → ℕ → Field → ℕ → View
set_header ram fdt field val = store32 ram (fdt + 4 * index_of field) (cpu_to_fdt32 val)

-- fdt_magic(fdt) and fdt_totalsize(fdt)
unfoldable pub header_magic : View → ℕ → ℕ
unfolding get_header
header_magic ram fdt = get_header ram fdt magic

unfoldable pub header_totalsize : View → ℕ → ℕ
unfolding get_header
header_totalsize ram fdt = get_header ram fdt totalsize
