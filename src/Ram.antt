-- ===== src/Ram.antt =====
-- The functions of string.c that write: memset, memcpy and memmove. The RAM is an array of bytes
-- at their addresses, and an area ends below the end of the address space.
pub mod Fill
pub mod Copy
pub mod Area
use pxa_impedance_matcher.Base.{ℕ, zero, suc, ◌+◌, ◌==◌, leb, if◌then◌else◌, View, u8}

-- `*a = x`, through a pointer to char.
unfoldable pub store : View → ℕ → ℕ → View
store ram a x b = if b == a then x else ram b

-- `while (count--) *xs++ = c`. The value is converted to char.
memset_loop : ℕ → View → ℕ → ℕ → View
memset_loop zero ram xs c = ram
memset_loop (suc count) ram xs c = memset_loop count (store ram xs (u8 c)) (xs + 1) c

unfoldable pub memset : View → ℕ → ℕ → ℕ → View
unfolding memset_loop
memset ram s c count = memset_loop count ram s c

-- `while (count--) *tmp++ = *s++`
copy_up : ℕ → View → ℕ → ℕ → View
copy_up zero ram tmp s = ram
copy_up (suc count) ram tmp s = copy_up count (store ram tmp (ram s)) (tmp + 1) (s + 1)

-- `while (count--) *--tmp = *--s`, from `tmp = dest + count` and `s = src + count`.
copy_down : ℕ → View → ℕ → ℕ → View
copy_down zero ram dest src = ram
copy_down (suc count) ram dest src =
    copy_down count (store ram (dest + count) (ram (src + count))) dest src

unfoldable pub memcpy : View → ℕ → ℕ → ℕ → View
unfolding copy_up
memcpy ram dest src count = copy_up count ram dest src

unfoldable pub memmove : View → ℕ → ℕ → ℕ → View
unfolding copy_up copy_down
memmove ram dest src count =
    if leb dest src then copy_up count ram dest src else copy_down count ram dest src
