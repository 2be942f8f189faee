-- ===== src/Boards/Raumfeld/Fixups.antt =====
-- The fixups of board-raumfeld.c, which write the board's revision, its command line and its
-- backlight into the device tree.
pub mod Written
pub mod Content
pub mod Backlight
use pxa_impedance_matcher.Base.{
  ℕ, ◌+◌, ◌-◌, ltb, List, ◌==◌, if◌then◌else◌, codes, View, low_bits, lit,
}
use pxa_impedance_matcher.Base.Int.{ℤ, pos, is_neg}
use pxa_impedance_matcher.Str.{strlen}
use pxa_impedance_matcher.Fdt.{setprop_u32}
use pxa_impedance_matcher.Machine.{Cmd, pure, ◌>>=◌, ◌>>◌, lift, get_ram, set_ram}
use pxa_impedance_matcher.Boards.Shared.{
  Fixup, fixup_common, fixup_controller, Board, Globals, Platform, say,
}

-- The backlight's node for a revision of the hardware.
abbrev pub backlight_node : ℕ → List ℕ
backlight_node system_rev =
    if system_rev == 2 then codes "/backlight-controller" else codes "/backlight-controller-pwm"

module _ (p : Platform) where
  -- fdt_setprop_u32 of the root, and fdt_setprop_string, a macro: fdt_setprop with strlen(str) + 1
  -- bytes. The results are not looked at.
  unfoldable pub set_u32 : ℕ → List ℕ → ℕ → Cmd (Unit {0})
  set_u32 dtb name val = do
    ram ← get_ram
    let (ram', _) = setprop_u32 p.fdt ram dtb (pos 0) name val
    set_ram ram'

  unfoldable pub set_string : ℕ → ℤ → List ℕ → View → ℕ → Cmd (Unit {0})
  set_string dtb off name v str = do
    len ← lift (strlen p.fuel v str)
    ram ← get_ram
    let (ram', _) = p.fdt.setprop ram dtb off name v str (len + 1)
    set_ram ram'

  -- The command line, if there is one.
  unfoldable pub set_bootargs : Globals → Board → Cmd (Unit {0})
  unfolding set_string
  set_bootargs g board = do
    ram ← get_ram
    let off = p.fdt.path_offset ram board.dtb (codes "/chosen")
    if is_neg off
        then say p (codes "Cannot locate /chosen!")
        else set_string board.dtb off (codes "bootargs") ram g.cmdline

  unfoldable pub raumfeld_fixup_dtb_common : Globals → Board → Cmd (Unit {0})
  unfolding set_u32 set_bootargs
  raumfeld_fixup_dtb_common g board =
      set_u32 board.dtb (codes "hw-revision") (low_bits g.system_rev 8)
      >> (if g.cmdline == 0 then pure tt else set_bootargs g board)

  -- The literal "okay" and what stands behind it.
  abbrev pub okay : View
  okay i = if ltb i 5 then lit (codes "okay") i else p.behind_okay (i - 5)

  unfoldable pub enable_backlight : Globals → Board → Cmd (Unit {0})
  unfolding set_string
  enable_backlight g board = do
    ram ← get_ram
    let node = backlight_node g.system_rev
    let off = p.fdt.path_offset ram board.dtb node
    if is_neg off
        then (do say p (codes "Unable to locate "); say p node; say p (codes "!\n"))
        else set_string board.dtb off (codes "status") okay 0

  unfoldable pub raumfeld_fixup_dtb_controller : Globals → Board → Cmd (Unit {0})
  unfolding raumfeld_fixup_dtb_common enable_backlight
  raumfeld_fixup_dtb_controller g board =
      raumfeld_fixup_dtb_common g board >> enable_backlight g board

  -- The call through the pointer.
  unfoldable pub run_fixup : Fixup → Globals → Board → Cmd (Unit {0})
  unfolding raumfeld_fixup_dtb_common raumfeld_fixup_dtb_controller
  run_fixup fixup_common = raumfeld_fixup_dtb_common
  run_fixup fixup_controller = raumfeld_fixup_dtb_controller
