-- ===== src/Boards/Raumfeld/Led/Blink.antt =====
-- The blinking of the LEDs, and what it does to the serial line.
use pxa_impedance_matcher.Base.{
  ℕ, zero, suc, ◌+◌, ◌-◌, ◌%◌, ◌≢◌, inl, inr, List, [], ◌∷◌, ◌==◌, Bool-cases, All, u32,
}
use pxa_impedance_matcher.Machine.{Event, Machine, Device, writel, panic}
use pxa_impedance_matcher.Machine.Prints.{
  Prints, Prints-pure, Prints-seq, Stops, Stops-panic, Prints-Stops,
}
use pxa_impedance_matcher.Uart.{Serial}
use pxa_impedance_matcher.Boards.Raumfeld.Led.Wait.{Elapses, writel-quiet, wait-quiet}
use pxa_impedance_matcher.Boards.Raumfeld.Led.{oscr, wait, led_init, led_set, led_rounds, led_panic}

abbrev pub led_registers : List ℕ
led_registers = 0x40A00010 ∷ 0x40e10420 ∷ 0x40e10424 ∷ 0x40e00010 ∷ 0x40e0001c ∷ 0x40e00028 ∷ []

-- The serial line has a register of its own.
abbrev pub IsApart : Serial → Type 0
IsApart s = All (λ a. a ≢ s.data_register) led_registers

module _ (dev : Device) (s : Serial) (apart : IsApart s) where
  quiet : (val a : ℕ) → a ≢ s.data_register → (m : Machine) → Prints s.wire [] m (writel val a m)
  quiet val a ne m = writel-quiet s.wire val a m (s.wire-wrote a (u32 val) m.history ne)

  led_set-quiet : (index state : ℕ) (m : Machine) → Prints s.wire [] m (led_set index state m)
  unfolding led_set
  led_set-quiet index state m = elim (Bool-cases (state == 0)) [
    | inl off ↦ rw off (quiet _ 0x40e00028 apart.1.1.1.1.1.0 m)
    | inr lit_up ↦ rw lit_up (quiet _ 0x40e0001c apart.1.1.1.1.0 m)
  ]

  module _ (f : ℕ) (elapses : (h : List Event) → Elapses dev 500000 f h) where
    timer-quiet : (m : Machine) → Prints s.wire [] m (wait dev f 500000 m)
    timer-quiet =
        wait-quiet dev s.wire (s.wire-got oscr) (λ v h. s.wire-wrote oscr v h apart.0) f elapses

    led_rounds-quiet :
        (rounds i : ℕ) (m : Machine) → Prints s.wire [] m (led_rounds dev f rounds i m)
    unfolding led_rounds
    led_rounds-quiet zero i m = Prints-pure m
    led_rounds-quiet (suc rounds) i m =
        Prints-seq (led_set 0 (i % 2)) _ (led_set-quiet 0 (i % 2) m) λ m1 _.
          Prints-seq (led_set 1 (1 - i % 2)) _ (led_set-quiet 1 (1 - i % 2) m1) λ m2 _.
            Prints-seq (wait dev f 500000) (led_rounds dev f rounds (i + 1)) (timer-quiet m2)
              λ m3 _. led_rounds-quiet rounds (i + 1) m3

    led_init-quiet : (m : Machine) → Prints s.wire [] m (led_init m)
    unfolding led_init
    led_init-quiet m = Prints-seq (writel 0 0x40e10420) _ (quiet 0 0x40e10420 apart.1.0 m) λ m1 _.
        Prints-seq (writel 0 0x40e10424) (writel 0x18 0x40e00010)
          (quiet 0 0x40e10424 apart.1.1.0 m1) λ m2 _. quiet 0x18 0x40e00010 apart.1.1.1.0 m2

    -- However many rounds have passed, led_panic has not returned, and has put nothing on the serial
    -- line, where the timer always reaches 500000 within the polls.
    pub led_panic-Stops :
        {A : Type 0} (rounds : ℕ) (m : Machine)
        → Stops {A = A} s.wire [] m (led_panic dev f rounds m)
    unfolding led_panic
    led_panic-Stops rounds m = Prints-Stops led_init _ (led_init-quiet m) λ m1 _.
        Prints-Stops (led_rounds dev f rounds 0) panic (led_rounds-quiet rounds 0 m1)
          λ m2 _. Stops-panic m2
