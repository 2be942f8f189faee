-- ===== src/Str.antt =====
-- The functions of string.c that only read. Each takes an array of bytes and an index for a
-- pointer; a pointer that it returns is an index into the same array, `none` for NULL.
-- A loop that runs to a NUL takes fuel; a counted one recurs on its count.
pub mod Length
pub mod Find
pub mod Compare
use pxa_impedance_matcher.Base.{
  ℕ, zero, suc, ◌+◌, ◌-◌, Option, none, some, ltb, ◌==◌, if◌then◌else◌, View, u8, Result, done,
  out_of_fuel, ◌>>=◌,
}
use pxa_impedance_matcher.Base.Int.{ℤ, pos, negsuc, sub_ℕ}

-- `while (*c++) ;`, with the index that it leaves in `c`.
strlen_loop : ℕ → View → ℕ → Result ℕ
strlen_loop zero v c = out_of_fuel
strlen_loop (suc f) v c =
    let rest = strlen_loop f v (c + 1) in if v c == 0 then done (c + 1) else rest

-- `return c - str`
unfoldable pub strlen : ℕ → View → ℕ → Result ℕ
unfolding strlen_loop
strlen f v str = do c ← strlen_loop f v str; done (c - str)

-- `while (*s++ && len < maxlen) len++`, with `maxlen - len` rounds left.
strnlen_loop : ℕ → View → ℕ → ℕ → ℕ
strnlen_loop zero v s len = len
strnlen_loop (suc left) v s len =
    let rest = strnlen_loop left v (s + 1) (len + 1) in if v s == 0 then len else rest

unfoldable pub strnlen : View → ℕ → ℕ → ℕ
unfolding strnlen_loop
strnlen v s maxlen = strnlen_loop maxlen v s 0

-- `do { if (*s == c) ret = s; } while (*s++)`
strrchr_loop : ℕ → View → ℕ → ℕ → Option ℕ → Result (Option ℕ)
strrchr_loop zero v s c ret = out_of_fuel
strrchr_loop (suc f) v s c ret =
    let found : Option ℕ = if v s == c then some s else ret in
    let rest = strrchr_loop f v (s + 1) c found in if v s == 0 then done found else rest

unfoldable pub strrchr : ℕ → View → ℕ → ℕ → Result (Option ℕ)
unfolding strrchr_loop
strrchr f v s c = strrchr_loop f v s c none

-- Recursion on `len`. The bytes are compared as `unsigned char`.
unfoldable pub strncmp : View → ℕ → View → ℕ → ℕ → ℤ
strncmp v stra w strb zero = pos 0
strncmp v stra w strb (suc len) =
    let c1 = u8 (v stra) in
    let c2 = u8 (w strb) in
    let rest = strncmp v (stra + 1) w (strb + 1) len in
    if c1 == c2 then (if c1 == 0 then pos 0 else rest) else (if ltb c1 c2 then negsuc 0 else pos 1)

-- `while (n-- != 0)`
unfoldable pub memchr : View → ℕ → ℕ → ℕ → Option ℕ
memchr v p c zero = none
memchr v p c (suc n) = let rest = memchr v (p + 1) c n in if u8 c == v p then some p else rest

unfoldable pub strchr : ℕ → View → ℕ → ℕ → Result (Option ℕ)
strchr zero v s c = out_of_fuel
strchr (suc f) v s c =
    let rest = strchr f v (s + 1) c in
    if v s == u8 c then done (some s) else (if v s == 0 then done none else rest)

-- `res` is the difference of the first two bytes that differ, as an `int`.
unfoldable pub memcmp : View → ℕ → View → ℕ → ℕ → ℤ
memcmp v su1 w su2 zero = pos 0
memcmp v su1 w su2 (suc count) =
    let rest = memcmp v (su1 + 1) w (su2 + 1) count in
    if v su1 == w su2 then rest else sub_ℕ (v su1) (w su2)
