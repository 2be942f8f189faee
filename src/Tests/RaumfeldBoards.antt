-- ===== src/Tests/RaumfeldBoards.antt =====
-- The Raumfeld boards.
use pxa_impedance_matcher.Base.{ℕ, View, inl, subst, codes, ◌∷◌, ◌≡◌, refl, some, [], arith}
use pxa_impedance_matcher.Base.Int.{pos}
use pxa_impedance_matcher.Fdt.{Fdt, setprop_u32}
use pxa_impedance_matcher.Fdt.Contract.{bytes_of, SetpropContract, set}
use pxa_impedance_matcher.Machine.{ok}
use pxa_impedance_matcher.Machine.Prints.{Stops}
use pxa_impedance_matcher.Boards.Shared.{Platform, fixup_common, fixup_controller, Board, Globals}
use pxa_impedance_matcher.Boards.Shared.Matched.{board_of}
use pxa_impedance_matcher.Boards.Raumfeld.Led.{led_panic}
use pxa_impedance_matcher.Boards.Raumfeld.Led.Lights.{pins, led_panic-blinks}
use pxa_impedance_matcher.Boards.Raumfeld.Fixups.{
  okay, raumfeld_fixup_dtb_common, raumfeld_fixup_dtb_controller,
}
use pxa_impedance_matcher.Boards.Raumfeld.Fixups.Written.{common-revision}
use pxa_impedance_matcher.Boards.Raumfeld.Fixups.Backlight.{Backlit, SetsStatus, controller-Backlit}
use pxa_impedance_matcher.Ram.{store}
use pxa_impedance_matcher.Tests.OneProperty.{one_property, one-Sets}
use pxa_impedance_matcher.Boards.Raumfeld.Select.{CanBlink}
use pxa_impedance_matcher.Boards.Raumfeld.Table.{RaumfeldBoard, entry, rboards, find_machid}
use pxa_impedance_matcher.Tests.Setup.{
  board_device, platform, trees_at, tree_ram, controller_name, machine_with, timer-Elapses,
  line-IsApart,
}

speaker_l :
    find_machid rboards 2415 0x203
    ≡ some (entry 2415 2 "raumfeld,raumfeld-speaker-l-pxa303" fixup_common)
unfolding find_machid rboards
speaker_l = refl

led_panic-blinks_example :
    Stops {A = Board} pins
      (32 ∷ 17 ∷ 33 ∷ 16 ∷ 32 ∷ 17 ∷ [])
      (machine_with controller_name)
      (led_panic board_device 100 3 (machine_with controller_name))
led_panic-blinks_example =
    led_panic-blinks board_device 100 timer-Elapses 3 (machine_with controller_name)

platform-CanBlink : CanBlink platform
unfolding platform
platform-CanBlink = record { apart = line-IsApart; elapses = timer-Elapses; fuel = omega arith }

abbrev controller : RaumfeldBoard
controller = entry 2413 0 "raumfeld,raumfeld-controller-pxa303" fixup_controller

abbrev globals : Globals
globals = record { system_rev = 2; cmdline = 0 }

abbrev board : Board
board =
    board_of platform controller_name (some fixup_controller)
      (record { addr = trees_at; size = 64 })

-- A library that finds the backlight's node of revision 2.
abbrev backlit : Fdt
backlit = one_property (codes "/backlight-controller") (codes "status")

unfoldable loader : Platform
unfolding platform
loader = record platform { fdt = backlit }

common_returns :
    raumfeld_fixup_dtb_common loader globals board (machine_with controller_name)
    ≡ ok tt (machine_with controller_name)
unfolding loader platform setprop_u32
common_returns = common-revision loader globals board (machine_with controller_name) refl

status_set :
    (ram : View)
    → let call = backlit.setprop ram trees_at (pos 8) (codes "status") (okay loader) 0 6 in
      SetpropContract backlit ram trees_at
        (codes "/backlight-controller")
        (codes "status")
        (bytes_of (okay loader) 0 6)
        call
      × (call.1 ≡ pos 0)
unfolding loader platform store
status_set ram = (
  set
      (one-Sets (codes "/backlight-controller") (codes "status") ram _ trees_at
        (bytes_of (okay loader) 0 6) refl refl)
      refl,
  refl,
)

controller-Backlit_example :
    Backlit loader board
      (codes "/backlight-controller")
      (machine_with controller_name)
      (raumfeld_fixup_dtb_controller loader globals board (machine_with controller_name))
unfolding loader platform
controller-Backlit_example =
    controller-Backlit loader globals board (machine_with controller_name)
      (machine_with controller_name) (codes "/backlight-controller") (omega arith)
      (inl (refl, refl)) common_returns (λ n there. at n (by_offset n there))
  where
    by_offset : (n : ℕ) → pos 8 ≡ pos n → 8 ≡ n
    by_offset n e = cc

    at :
        (n : ℕ)
        → 8 ≡ n
        → SetsStatus loader board (codes "/backlight-controller") n (tree_ram controller_name)
    at n e =
        subst
          (λ k.
            SetsStatus loader board (codes "/backlight-controller") k (tree_ram controller_name))
          e (status_set (tree_ram controller_name))
