-- ===== src/Uart/Sends.antt =====
-- What the 8250 and the bcm63xx driver put on the line.
use pxa_impedance_matcher.Base.{
  ℕ, zero, suc, ◌+◌, ◌<◌, bit_and, ◌≡◌, refl, ap, ◌⊎◌, inl, inr, true, false, List, [], ◌∷◌, ◌++◌,
  arith, ◌==◌, Bool-cases, eq→==, u32,
}
use pxa_impedance_matcher.Machine.{Event, wrote, got, Device, Machine, Run, ◌>>◌, readl, writel}
use pxa_impedance_matcher.Machine.Prints.{Prints, Prints-pure, Prints-seq}
use pxa_impedance_matcher.Uart.{
  Serial, written, written-got, written-wrote, wait_set, putch_8250, putch_bcm63xx,
}

module _ (dev : Device) where
  -- Of the next `k` reads of `addr` with nothing between them, one has a bit of the mask set.
  unfoldable pub Ready : ℕ → ℕ → ℕ → List Event → Type 0
  Ready addr mask zero h = ⊥
  Ready addr mask (suc k) h =
      let val = u32 (dev h addr) in
      ((bit_and val mask == 0) ≡ false) ⊎ Ready addr mask k (got addr val ∷ h)

  after_read : ℕ → Machine → Machine
  after_read addr m = record m { history = got addr (u32 (dev m.history addr)) ∷ m.history }

  -- A read changes neither the line nor the RAM.
  Prints-read :
      (line addr : ℕ) {out : List ℕ} {m : Machine} {r : Run (Unit {0})}
      → Prints (written line) out (after_read addr m) r
      → Prints (written line) out m r
  unfolding after_read written
  Prints-read line addr p = record {
    after = p.after;
    returns = p.returns;
    line = p.line;
    same_ram = p.same_ram;
  }

  wait_set-Prints :
      (line addr mask f : ℕ) (m : Machine)
      → Ready addr mask f m.history
      → Prints (written line) [] m (wait_set dev f addr mask m)
  unfolding wait_set Ready readl after_read
  wait_set-Prints line addr mask zero m ready = absurd ready
  wait_set-Prints line addr mask (suc f) m ready =
      elim (Bool-cases (bit_and (u32 (dev m.history addr)) mask == 0)) [
        | inl busy ↦ rw busy (
            Prints-read line addr
              (wait_set-Prints line addr mask f (after_read addr m) (later busy ready)))
        | inr set ↦ rw set (Prints-read line addr (Prints-pure (after_read addr m)))
      ]
    where
      later :
          (bit_and (u32 (dev m.history addr)) mask == 0) ≡ true
          → Ready addr mask (suc f) m.history
          → Ready addr mask f (after_read addr m).history
      later busy (inl set) = cc
      later busy (inr more) = more

  writel-Prints :
      (line c : ℕ) (m : Machine) → c < 256 → Prints (written line) (c ∷ []) m (writel c line m)
  unfolding writel written
  writel-Prints line c m small = record {
    after = record m { history = wrote line (u32 c) ∷ m.history };
    returns = refl;
    line = rw (eq→== line line refl) (ap (λ x. written line m.history ++ x ∷ []) (omega arith));
    same_ram = refl;
  }

  -- Wait, send, wait.
  send-Prints :
      (line addr mask f c : ℕ)
      → ((h : List Event) → Ready addr mask f h)
      → c < 256
      → (m : Machine)
      → Prints
          (written line)
          (c ∷ [])
          m
          ((do wait_set dev f addr mask; writel c line; wait_set dev f addr mask) m)
  send-Prints line addr mask f c ready small m =
      Prints-seq (wait_set dev f addr mask) _ (wait_set-Prints line addr mask f m (ready m.history))
        λ m1 _.
          Prints-seq (writel c line) (wait_set dev f addr mask) (writel-Prints line c m1 small)
            λ m2 _. wait_set-Prints line addr mask f m2 (ready m2.history)

  module _ (uart_base f : ℕ) where
    -- Where the transmitter of an 8250 always becomes empty within the polls, __putch returns, and
    -- puts its character and nothing else on the line.
    pub putch_8250-Prints :
        ((h : List Event) → Ready (uart_base + 0x14) 0x20 f h)
        → (c : ℕ) → c < 256
        → (m : Machine)
        → Prints (written (uart_base + 0x00)) (c ∷ []) m (putch_8250 dev uart_base f c m)
    unfolding putch_8250
    putch_8250-Prints ready c small =
        send-Prints (uart_base + 0x00) (uart_base + 0x14) 0x20 f c ready small

    -- Where the transmitter of a bcm63xx UART always becomes empty within the polls, __putch
    -- returns, and puts its character and nothing else on the line.
    pub putch_bcm63xx-Prints :
        ((h : List Event) → Ready (uart_base + 0x10) 0x20 f h)
        → (c : ℕ) → c < 256
        → (m : Machine)
        → Prints (written (uart_base + 0x14)) (c ∷ []) m (putch_bcm63xx dev uart_base f c m)
    unfolding putch_bcm63xx
    putch_bcm63xx-Prints ready c small =
        send-Prints (uart_base + 0x14) (uart_base + 0x10) 0x20 f c ready small

    -- The two drivers as implementations of serial.h.
    unfoldable pub serial_8250 : ((h : List Event) → Ready (uart_base + 0x14) 0x20 f h) → Serial
    serial_8250 ready = record {
      putch = putch_8250 dev uart_base f;
      wire = written (uart_base + 0x00);
      emits = λ c. c ∷ [];
      data_register = uart_base + 0x00;
      wire-wrote = written-wrote (uart_base + 0x00);
      wire-got = written-got (uart_base + 0x00);
      putch_prints = putch_8250-Prints ready;
    }

    unfoldable pub serial_bcm63xx : ((h : List Event) → Ready (uart_base + 0x10) 0x20 f h) → Serial
    serial_bcm63xx ready = record {
      putch = putch_bcm63xx dev uart_base f;
      wire = written (uart_base + 0x14);
      emits = λ c. c ∷ [];
      data_register = uart_base + 0x14;
      wire-wrote = written-wrote (uart_base + 0x14);
      wire-got = written-got (uart_base + 0x14);
      putch_prints = putch_bcm63xx-Prints ready;
    }
