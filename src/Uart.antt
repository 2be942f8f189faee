-- ===== src/Uart.antt =====
-- serial.h: what a serial driver offers to print.c, and the two drivers that wait for an empty
-- transmitter before and after each character: serial-8250.c and serial-bcm63xx.c.
pub mod Sends
pub mod Exynos
use pxa_impedance_matcher.Base.{
  ◌^◌, ℕ, zero, suc, ◌+◌, ◌<◌, bit_and, ◌≡◌, refl, ◌≢◌, List, [], ◌∷◌, ◌++◌, ◌==◌, if◌then◌else◌,
  ne→==,
}
use pxa_impedance_matcher.Machine.{
  Event, wrote, got, Device, Machine, Run, no_fuel, Cmd, pure, ◌>>=◌, ◌>>◌, readl, writel,
}
use pxa_impedance_matcher.Machine.Prints.{Prints}

-- `__putch`, the bytes that register accesses put on the line, and those that one call adds.
pub record Serial : Type 0 where
  pub putch : ℕ → Cmd (Unit {0})
  pub wire : List Event → List ℕ
  pub emits : ℕ → List ℕ
  -- The register that a character is written to.
  pub data_register : ℕ
  -- An access to another register sends nothing, nor does a read.
  pub wire-wrote : (a v : ℕ) (h : List Event) → a ≢ data_register → wire (wrote a v ∷ h) ≡ wire h
  pub wire-got : (a v : ℕ) (h : List Event) → wire (got a v ∷ h) ≡ wire h
  pub putch_prints : (c : ℕ) → c < 256 → (m : Machine) → Prints wire (emits c) m (putch c m)

-- The bytes written to the register at `addr`, in order.
unfoldable pub written : ℕ → List Event → List ℕ
written addr [] = []
written addr (wrote a v ∷ h) = if a == addr then written addr h ++ v ∷ [] else written addr h
written addr (got a v ∷ h) = written addr h

pub written-got : (addr a v : ℕ) (h : List Event) → written addr (got a v ∷ h) ≡ written addr h
unfolding written
written-got addr a v h = refl

pub written-wrote :
    (addr a v : ℕ) (h : List Event) → a ≢ addr → written addr (wrote a v ∷ h) ≡ written addr h
unfolding written
written-wrote addr a v h ne = rw (ne→== a addr ne)

-- The registers of the bcm63xx, and the bits of the first.
abbrev pub uart_ir_reg : ℕ
uart_ir_reg = 0x10

abbrev pub uart_ir_stat : ℕ → ℕ
uart_ir_stat x = 2 ^ x

abbrev pub uart_ir_txempty : ℕ
uart_ir_txempty = 5

abbrev pub uart_fifo_reg : ℕ
uart_fifo_reg = 0x14

module _ (dev : Device) where
  -- `while (!(readl(addr) & mask)) ;`
  unfoldable pub wait_set : ℕ → ℕ → ℕ → Cmd (Unit {0})
  wait_set zero addr mask = λ _. no_fuel
  wait_set (suc f) addr mask =
      let rest = wait_set f addr mask in
      do val ← readl dev addr; if bit_and val mask == 0 then rest else pure tt

  module _ (uart_base : ℕ) where
    -- LSR_THRE is BIT(5).
    unfoldable pub putch_8250 : ℕ → ℕ → Cmd (Unit {0})
    unfolding wait_set
    putch_8250 f c = do
      wait_set f (uart_base + 0x14) 0x20
      writel c (uart_base + 0x00)
      wait_set f (uart_base + 0x14) 0x20

    unfoldable pub wait_xfered : ℕ → Cmd (Unit {0})
    unfolding wait_set
    wait_xfered f = wait_set f (uart_base + uart_ir_reg) (uart_ir_stat uart_ir_txempty)

    unfoldable pub putch_bcm63xx : ℕ → ℕ → Cmd (Unit {0})
    unfolding wait_xfered
    putch_bcm63xx f c = do wait_xfered f; writel c (uart_base + uart_fifo_reg); wait_xfered f
