-- ===== src/Print.antt =====
-- print.c over a serial driver.
pub mod Output
pub mod HexText
use pxa_impedance_matcher.Base.{
  ℕ, zero, suc, ◌+◌, ◌-◌, ◌*◌, none, some, List, ◌==◌, if◌then◌else◌, codes, get_elem?, View, shr,
  low_bits,
}
use pxa_impedance_matcher.Machine.{Machine, Run, undefined, no_fuel, Cmd, pure, ◌>>=◌, ◌>>◌}
use pxa_impedance_matcher.Uart.{Serial}

abbrev pub hexdigits : List ℕ
hexdigits = codes "0123456789abcdef"

module _ (s : Serial) where
  unfoldable pub putch : ℕ → Cmd (Unit {0})
  putch c = s.putch c >> (if c == 0x0a then s.putch 0x0d else pure tt)

  -- `__putch(hexdigits[i])`
  put_digit : ℕ → Cmd (Unit {0})
  put_digit i = elim (get_elem? hexdigits i) [ none ↦ λ _. undefined | some c ↦ s.putch c ]

  -- The loop at `i`, with `8 - i` rounds left.
  printhex_loop : ℕ → ℕ → ℕ → Cmd (Unit {0})
  unfolding put_digit
  printhex_loop zero i u = pure tt
  printhex_loop (suc left) i u =
      put_digit (low_bits (shr u (28 - i * 4)) 4) >> printhex_loop left (i + 1) u

  unfoldable pub printhex : ℕ → Cmd (Unit {0})
  unfolding printhex_loop
  printhex u = printhex_loop 8 0 u

  -- `while (*s) putch(*s++)`
  unfoldable pub putstr : ℕ → View → ℕ → Cmd (Unit {0})
  unfolding putch
  putstr zero v p = λ _. no_fuel
  putstr (suc f) v p =
      let rest = putstr f v (p + 1) in if v p == 0 then pure tt else (putch (v p) >> rest)
