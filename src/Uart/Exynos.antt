-- ===== src/Uart/Exynos.antt =====
-- serial-exynos.c: the registers of `struct s5p_uart`, and a driver that gives up on a break.
pub mod Sends
use pxa_impedance_matcher.Base.{
  ℕ, zero, suc, ◌+◌, ◌*◌, ◌^◌, bit_and, Bool, true, false, ◌==◌, if◌then◌else◌, u32,
}
use pxa_impedance_matcher.Machine.{
  Event, wrote, got, Device, Machine, Run, ok, no_fuel, Cmd, pure, ◌>>=◌, ◌>>◌, readl, writeb,
}

abbrev pub exynos_base_uart : ℕ
exynos_base_uart = 0x13800000

-- sizeof(struct s5p_uart): `res3` ends at 0x2e + 0xffd0, and the struct is aligned to 4 bytes.
abbrev pub s5p_uart_size : ℕ
s5p_uart_size = 0x10000

-- Offsets in it.
abbrev pub uerstat : ℕ
uerstat = 0x14

abbrev pub ufstat : ℕ
ufstat = 0x18

abbrev pub utxh : ℕ
utxh = 0x20

abbrev pub tx_fifo_full_mask : ℕ
tx_fifo_full_mask = 2 ^ 24

-- Nothing uses these two.
abbrev pub uart_baudrate_115200 : ℕ
uart_baudrate_115200 = 115200

abbrev pub s5p_uart_divslot : ℕ
s5p_uart_divslot = 0

unfoldable pub s5p_get_base_uart : ℕ → ℕ
s5p_get_base_uart dev_index = u32 (exynos_base_uart + u32 (dev_index * s5p_uart_size))

module _ (dev : Device) (uart_port : ℕ) where
  abbrev pub uart : ℕ
  uart = s5p_get_base_uart uart_port

  -- `op` chooses the error bits: the break alone for sending, all of them for receiving.
  unfoldable pub serial_err_check : Bool → Cmd ℕ
  serial_err_check op = do
    val ← readl dev (uart + uerstat)
    pure (bit_and val (if op then 0x8 else 0xf))

  -- The loop that waits for room: whether there is some, or the driver returns.
  unfoldable pub wait_room : ℕ → Cmd Bool
  unfolding serial_err_check
  wait_room zero = λ _. no_fuel
  wait_room (suc f) =
      let rest = wait_room f in
      do
        val ← readl dev (uart + ufstat)
        if bit_and val tx_fifo_full_mask == 0
            then pure true
            else do err ← serial_err_check true; if err == 0 then rest else pure false

  -- The recursion is on the calls left: '\n' calls for '\r', which calls for nothing.
  putch_calls : ℕ → ℕ → ℕ → Cmd (Unit {0})
  putch_calls zero f c = λ _. no_fuel
  putch_calls (suc calls) f c =
      let again = putch_calls calls f 0x0d in
      do
        room ← wait_room f
        if room then (do writeb c (uart + utxh); if c == 0x0a then again else pure tt) else pure tt

  unfoldable pub putch_exynos : ℕ → ℕ → Cmd (Unit {0})
  unfolding putch_calls wait_room
  putch_exynos f c = putch_calls 2 f c
