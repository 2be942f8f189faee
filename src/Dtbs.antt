-- ===== src/Dtbs.antt =====
-- dtbs.c: the search for the device tree that names a board among those appended to the loader.
pub mod FindStr
pub mod FindDtb
use pxa_impedance_matcher.Base.{
  ℕ, zero, suc, ◌+◌, ◌-◌, ◌*◌, ◌/◌, ◌^◌, ◌&&◌, ◌==◌, if◌then◌else◌, Result, done, out_of_fuel,
  ◌>>=◌, View, u32,
}
use pxa_impedance_matcher.Base.Int.{is_zero}
use pxa_impedance_matcher.Str.{strlen, strncmp}
use pxa_impedance_matcher.Fdt.Header.{fdt_magic, header_magic, header_totalsize}

-- `for (p = mem; p < last; p++)`, with `last - p` rounds left.
find_loop : ℕ → View → ℕ → View → ℕ → ℕ → ℕ
find_loop zero ram p w str len = 0
find_loop (suc left) ram p w str len =
    let rest = find_loop left ram (p + 1) w str len in
    if ram p == w str && is_zero (strncmp ram p w str len) then 1 else rest

-- Pointers and `memsz` are 32-bit words.
unfoldable pub find_str : ℕ → View → ℕ → ℕ → View → ℕ → Result ℕ
unfolding find_loop
find_str f ram mem memsz w str = do
  len ← strlen f w str
  let last = u32 (mem + memsz + 2 ^ 32 - len)
  done (find_loop (last - mem) ram mem w str len)

-- A device tree in the RAM. NULL is the address 0.
pub record Dtb : Type 0 where
  pub addr : ℕ
  pub size : ℕ

-- `d + size`, aligned to 4 bytes.
unfoldable pub next_dtb : ℕ → ℕ → ℕ
next_dtb d size = u32 (u32 (d + size) + 3) / 4 * 4

-- The first fuel is strlen's, the second that of the loop over the trees.
unfoldable pub find_dtb : ℕ → ℕ → View → ℕ → View → ℕ → Result Dtb
find_dtb f zero ram d w compat = out_of_fuel
find_dtb f (suc k) ram d w compat =
    let size = header_totalsize ram d in
    let rest = find_dtb f k ram (next_dtb d size) w compat in
    let search = do
      found ← find_str f ram d size w compat
      if found == 1 then done (record { addr = d; size = size }) else rest
    in if header_magic ram d == fdt_magic then search else done (record { addr = 0; size = 0 })
