-- ===== src/Hex.antt =====
-- gethexaddr and getaddrs of string.c: the addresses of kernel and device tree on the command line.
pub mod Digits
pub mod Address
pub mod Options
pub mod Found
use pxa_impedance_matcher.Base.{
  ℕ, zero, suc, ◌+◌, ◌-◌, Bool, ◌&&◌, ◌||◌, Option, none, some, List, [], ◌∷◌, ltb, leb, ◌==◌,
  if◌then◌else◌, codes, get_elem?, Result, done, fault, out_of_fuel, ◌>>=◌, View, u32, shl, lit,
}
use pxa_impedance_matcher.Base.Int.{ℤ, pos, negsuc, is_zero}
use pxa_impedance_matcher.Str.{strncmp}

-- The values of the characters from '0' to 'F'.
abbrev pub hexlut : List ℕ
hexlut =
    0 ∷ 1 ∷ 2 ∷ 3 ∷ 4 ∷ 5 ∷ 6 ∷ 7 ∷ 8 ∷ 9 ∷ 0 ∷ 0 ∷ 0 ∷ 0 ∷ 0 ∷ 0 ∷ 0 ∷ 10 ∷ 11 ∷ 12 ∷ 13 ∷ 14 ∷ 15
    ∷ []

-- `hexlut[*s - ('0' + off)]`, a fault where the index is outside the table. char is unsigned on ARM.
unfoldable pub digit : ℕ → Result ℕ
digit c =
    let off : ℕ = if ltb b'F' c then 0x20 else 0 in
    let entry = get_elem? hexlut (c - (b'0' + off)) in
    if ltb c (b'0' + off) then fault else elim entry [ none ↦ fault | some d ↦ done d ]

unfoldable pub is_delimiter : ℕ → Bool
is_delimiter c = c == b' ' || c == 0x09 || c == b','

-- `while (*s) { if (…) break; s++; }`, with the index that it leaves in `s`.
unfoldable pub scan_end : ℕ → View → ℕ → Result ℕ
scan_end zero v s = out_of_fuel
scan_end (suc f) v s =
    let rest = scan_end f v (s + 1) in
    if v s == 0 then done s else (if is_delimiter (v s) then done s else rest)

-- The loop from the delimiter back to `str` or to an 'x', with `s = str + n - 1`. The sum is that
-- of a pointer, and a shift of an int by 32 or more is undefined.
unfoldable pub hex_loop : View → ℕ → ℕ → ℕ → ℕ → Result ℕ
hex_loop v str zero shift addr = done addr
hex_loop v str (suc n) shift addr =
    let rest = digit (v (str + n)) >>= λ d.
    if leb 32 shift then fault else hex_loop v str n (shift + 4) (u32 (addr + shl d shift)) in
    if v (str + n) == b'x' then done addr else rest

-- The address, and what is stored to `*end`: `none` if nothing is.
pub record HexAddr : Type 0 where
  pub addr : ℕ
  pub end : Option ℕ

unfoldable pub gethexaddr : ℕ → View → ℕ → Result HexAddr
gethexaddr f v str = do
  e ← scan_end f v str
  if v e == 0
      then done (record { addr = 0; end = none })
      else do a ← hex_loop v str (e - str) 0 0; done (record { addr = a; end = some e })

-- `while (*s) { if (*s == 'l') if (strncmp(s, "loadaddrs=", 10) == 0) break; s++; }`
unfoldable pub find_option : ℕ → View → ℕ → Result ℕ
find_option zero v s = out_of_fuel
find_option (suc f) v s =
    let rest = find_option f v (s + 1) in
    let hit = v s == b'l' && is_zero (strncmp v s (lit (codes "loadaddrs=")) 0 10) in
    if v s == 0 then done s else (if hit then done s else rest)

-- The result and the two pointers that the caller passes by reference.
pub record Addrs : Type 0 where
  pub ret : ℤ
  pub k : ℕ
  pub d : ℕ

-- The kernel's address with the end of its text. An `end` that is read unset is a fault.
unfoldable pub kernel_addr : ℕ → View → ℕ → Result (ℕ × Option ℕ)
kernel_addr f v s =
    if is_zero (strncmp v s (lit (codes "appended")) 0 8)
    then done (0, some (s + 8))
    else do h ← gethexaddr f v s; done (h.addr, h.end)

unfoldable pub after_kernel : ℕ → View → ℕ → Option ℕ → ℕ → Result Addrs
after_kernel f v k none d = fault
after_kernel f v k (some end) d =
    if v end == b','
    then (do h ← gethexaddr f v (end + 1); done (record { ret = pos 0; k = k; d = h.addr }))
    else done (record { ret = negsuc 0; k = k; d = d })

unfoldable pub getaddrs : ℕ → View → ℕ → ℕ → ℕ → Result Addrs
unfolding find_option kernel_addr after_kernel
getaddrs f v str k d = do
  s ← find_option f v str
  if v s == 0
      then done (record { ret = negsuc 0; k = k; d = d })
      else do (k', end) ← kernel_addr f v (s + 10); after_kernel f v k' end d
