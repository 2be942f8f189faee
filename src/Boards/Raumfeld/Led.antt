-- ===== src/Boards/Raumfeld/Led.antt =====
-- The LEDs of board-raumfeld.c, and the blinking that match_board ends in when it finds no board.
pub mod Blink
pub mod Wait
pub mod Lights
use pxa_impedance_matcher.Base.{ℕ, zero, suc, ◌+◌, ◌-◌, ◌%◌, ltb, ◌==◌, if◌then◌else◌, shl}
use pxa_impedance_matcher.Machine.{no_fuel, Device, Cmd, pure, ◌>>=◌, ◌>>◌, readl, writel, panic}

abbrev pub oscr : ℕ
oscr = 0x40A00010

-- The timer is reset and read until it reaches `ticks`.
module _ (dev : Device) where
  unfoldable pub wait_ticks : ℕ → ℕ → Cmd (Unit {0})
  wait_ticks zero ticks = λ _. no_fuel
  wait_ticks (suc f) ticks =
      let rest = wait_ticks f ticks in do v ← readl dev oscr; if ltb v ticks then rest else pure tt

  unfoldable pub wait : ℕ → ℕ → Cmd (Unit {0})
  unfolding wait_ticks
  wait f ticks = writel 0 oscr >> wait_ticks f ticks

-- GPIO35, GPIO36, GPDR1
unfoldable pub led_init : Cmd (Unit {0})
led_init = writel 0 0x40e10420 >> (writel 0 0x40e10424 >> writel 0x18 0x40e00010)

unfoldable pub led_set : ℕ → ℕ → Cmd (Unit {0})
led_set index state =
    let v = shl 1 (if index == 0 then 4 else 3) in
    if state == 0 then writel v 0x40e00028 else writel v 0x40e0001c

module _ (dev : Device) where
  -- The first `rounds` rounds of the loop, from `i` on. `~i & 1` is `1 - i & 1`.
  unfoldable pub led_rounds : ℕ → ℕ → ℕ → Cmd (Unit {0})
  led_rounds f zero i = pure tt
  led_rounds f (suc rounds) i =
      led_set 0 (i % 2)
      >> (led_set 1 (1 - i % 2) >> (wait dev f 500000 >> led_rounds f rounds (i + 1)))

  -- The loop has no end: after any number of rounds the program is still in it.
  unfoldable pub led_panic : {A : Type 0} → ℕ → ℕ → Cmd A
  unfolding led_init led_set wait led_rounds panic
  led_panic f rounds = led_init >> (led_rounds f rounds 0 >> panic)
