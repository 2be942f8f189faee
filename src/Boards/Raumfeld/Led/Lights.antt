-- ===== src/Boards/Raumfeld/Led/Lights.antt =====
-- The two LEDs of led_panic in board-raumfeld.c.
use pxa_impedance_matcher.Base.{
  ℕ, zero, suc, ◌+◌, ◌-◌, ◌*◌, ◌%◌, ◌<◌, ◌≡◌, refl, subst, inl, inr, List, [], ◌∷◌, ◌++◌,
  append-nil, ◌==◌, if◌then◌else◌, Bool-cases, arith,
}
use pxa_impedance_matcher.Machine.{Event, wrote, got, Machine, Device, writel, panic}
use pxa_impedance_matcher.Machine.Prints.{
  Prints, Prints-pure, Prints-seq, Prints-eq, Stops, Stops-panic, Prints-Stops,
}
use pxa_impedance_matcher.Boards.Raumfeld.Led.Wait.{Elapses, writel-quiet, wait-quiet}
use pxa_impedance_matcher.Boards.Raumfeld.Led.{wait, led_init, led_set, led_rounds, led_panic}

-- GPSR1 sets pins, GPCR1 clears pins.
abbrev pub gpsr1 : ℕ
gpsr1 = 0x40e0001c

abbrev pub gpcr1 : ℕ
gpcr1 = 0x40e00028

-- The bits of the pins of LED 0 and LED 1.
abbrev pub pin_of : ℕ → ℕ
pin_of index = if index == 0 then 16 else 8

-- A pin that is set, and one that is cleared, as numbers.
abbrev pub set_pin : ℕ → ℕ
set_pin pin = 2 * pin + 1

abbrev pub clear_pin : ℕ → ℕ
clear_pin pin = 2 * pin

-- What the pins are told, the latest last.
abbrev pub pins : List Event → List ℕ
pins [] = []
pins (wrote a v ∷ h) =
    if a == gpsr1
    then pins h ++ set_pin v ∷ []
    else (if a == gpcr1 then pins h ++ clear_pin v ∷ [] else pins h)
pins (got a v ∷ h) = pins h

-- The rounds from `i` on: LED 0 is lit in the odd rounds, LED 1 in the even ones, the other is dark.
abbrev pub blinks : ℕ → ℕ → List ℕ
blinks zero i = []
blinks (suc rounds) i =
    (if i % 2 == 0
      then clear_pin (pin_of 0) ∷ set_pin (pin_of 1) ∷ []
      else set_pin (pin_of 0) ∷ clear_pin (pin_of 1) ∷ [])
    ++ blinks rounds (i + 1)

tells : ℕ → ℕ → List ℕ
tells index state = (if state == 0 then clear_pin (pin_of index) else set_pin (pin_of index)) ∷ []

led_set-Prints :
    (index state : ℕ) (m : Machine) → Prints pins (tells index state) m (led_set index state m)
unfolding led_set writel tells
led_set-Prints index state m = elim (Bool-cases (state == 0)) [
  | inl off ↦ elim (Bool-cases (index == 0)) [
    | inl first ↦
        rw (off, first) (record { after = _; returns = refl; line = refl; same_ram = refl })
    | inr second ↦
        rw (off, second) (record { after = _; returns = refl; line = refl; same_ram = refl })
  ]
  | inr on ↦ elim (Bool-cases (index == 0)) [
    | inl first ↦
        rw (on, first) (record { after = _; returns = refl; line = refl; same_ram = refl })
    | inr second ↦
        rw (on, second) (record { after = _; returns = refl; line = refl; same_ram = refl })
  ]
]

module _ (dev : Device) (f : ℕ) (elapses : (h : List Event) → Elapses dev 500000 f h) where
  led_rounds-Prints :
      (rounds i : ℕ) (m : Machine) → Prints pins (blinks rounds i) m (led_rounds dev f rounds i m)
  unfolding led_rounds tells
  led_rounds-Prints zero i m = Prints-pure m
  led_rounds-Prints (suc rounds) i m =
      Prints-eq
        (Prints-seq (led_set 0 (i % 2)) _ (led_set-Prints 0 (i % 2) m) λ m1 _.
          Prints-seq (led_set 1 (1 - i % 2)) _ (led_set-Prints 1 (1 - i % 2) m1) λ m2 _.
            Prints-seq (wait dev f 500000) (led_rounds dev f rounds (i + 1))
              (wait-quiet dev pins (λ v h. refl) (λ v h. refl) f elapses m2)
              λ m3 _. led_rounds-Prints rounds (i + 1) m3)
        (by_parity (i % 2) (blinks rounds (i + 1)) (omega arith))
    where
      by_parity :
          (k : ℕ) (rest : List ℕ)
          → k < 2
          → tells 0 k ++ (tells 1 (1 - k) ++ ([] ++ rest))
            ≡ (if k == 0
                then clear_pin (pin_of 0) ∷ set_pin (pin_of 1) ∷ []
                else set_pin (pin_of 0) ∷ clear_pin (pin_of 1) ∷ [])
              ++ rest
      by_parity zero rest lt = refl
      by_parity (suc zero) rest lt = refl
      by_parity (suc (suc k)) rest lt = absurd (omega arith)

  led_init-quiet : (m : Machine) → Prints pins [] m (led_init m)
  unfolding led_init
  led_init-quiet m =
      Prints-seq (writel 0 0x40e10420) _ (writel-quiet pins 0 0x40e10420 m refl) λ m1 _.
        Prints-seq (writel 0 0x40e10424) (writel 0x18 0x40e00010)
          (writel-quiet pins 0 0x40e10424 m1 refl) λ m2 _. writel-quiet pins 0x18 0x40e00010 m2 refl

  -- However many rounds have passed, led_panic has not returned, and has told the two pins of the
  -- LEDs in turn to be set and cleared: in the even rounds, from 0 on, LED 1 is set and LED 0
  -- cleared, in the odd rounds the other way round, where the timer always reaches 500000 within
  -- the polls.
  pub led_panic-blinks :
      {A : Type 0} (rounds : ℕ) (m : Machine)
      → Stops {A = A} pins (blinks rounds 0) m (led_panic dev f rounds m)
  unfolding led_panic
  led_panic-blinks {A} rounds m =
      subst (λ l. Stops {A = A} pins l m (led_panic dev f rounds m)) (append-nil (blinks rounds 0))
        (Prints-Stops led_init _ (led_init-quiet m) λ m1 _.
          Prints-Stops (led_rounds dev f rounds 0) panic (led_rounds-Prints rounds 0 m1)
            λ m2 _. Stops-panic m2)
