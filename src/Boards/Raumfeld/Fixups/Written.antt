-- ===== src/Boards/Raumfeld/Fixups/Written.antt =====
-- What the fixups hand to libfdt.
use pxa_impedance_matcher.Base.{
  ℕ, ◌+◌, ◌%◌, ◌^◌, ◌<◌, ◌≡◌, ◌≢◌, false, List, arith, eq→==, ne→==, codes, length, View, Holds,
}
use pxa_impedance_matcher.Base.Int.{ℤ, pos, is_neg}
use pxa_impedance_matcher.Str.Length.{strlen_lem}
use pxa_impedance_matcher.Fdt.{setprop_u32}
use pxa_impedance_matcher.Machine.{Machine, ok}
use pxa_impedance_matcher.Boards.Shared.{Board, Globals, Platform}
use pxa_impedance_matcher.Boards.Raumfeld.Fixups.{
  raumfeld_fixup_dtb_common, okay, backlight_node, raumfeld_fixup_dtb_controller,
}

module _ (p : Platform) (g : Globals) (board : Board) where
  -- The RAM after the low byte of the revision has been written to the root.
  abbrev pub with_revision : View → View
  with_revision ram =
      (setprop_u32 p.fdt ram board.dtb (pos 0) (codes "hw-revision") (g.system_rev % 2 ^ 8)).0

  -- The RAM after `size` bytes from a string on have been written to a property.
  abbrev pub with_string : View → ℤ → List ℕ → View → ℕ → ℕ → View
  with_string ram off name v str size = (p.fdt.setprop ram board.dtb off name v str size).0

  -- With no command line the common fixup writes the revision's low byte alone.
  pub common-revision :
      (m : Machine)
      → g.cmdline ≡ 0
      → raumfeld_fixup_dtb_common p g board m ≡ ok tt (record m { ram = with_revision m.ram })
  unfolding raumfeld_fixup_dtb_common
  common-revision m none_given = rw (eq→== g.cmdline 0 none_given)

  -- With a command line within the fuel and a /chosen node, the common Raumfeld fixup writes the
  -- revision's low byte to the root, and then to the node the command line with two bytes more
  -- than it has before its NUL: one byte past its end.
  pub common-bootargs :
      (m : Machine) (off : ℤ) (xs : List ℕ)
      → let ram = with_revision m.ram in
        g.cmdline ≢ 0
        → p.fdt.path_offset ram board.dtb (codes "/chosen") ≡ off
        → is_neg off ≡ false
        → Holds ram g.cmdline xs
        → length xs < p.fuel
        → raumfeld_fixup_dtb_common p g board m
          ≡ ok tt (record m {
            ram = with_string ram off (codes "bootargs") ram g.cmdline (length xs + 1 + 1);
          })
  unfolding raumfeld_fixup_dtb_common
  common-bootargs m off xs given chosen there text fuel = rw (
    ne→== g.cmdline 0 given,
    chosen,
    there,
    strlen_lem p.fuel (with_revision m.ram) g.cmdline xs text fuel,
  )

  pub okay-Holds : Holds (okay p) 0 (codes "okay")
  okay-Holds = omega arith

  -- The controller's fixup where the tree has the backlight's node.
  pub controller-okay :
      (m m' : Machine) (off : ℤ)
      → raumfeld_fixup_dtb_common p g board m ≡ ok tt m'
      → p.fdt.path_offset m'.ram board.dtb (backlight_node g.system_rev) ≡ off
      → is_neg off ≡ false
      → 4 < p.fuel
      → raumfeld_fixup_dtb_controller p g board m
        ≡ ok tt (record m' { ram = with_string m'.ram off (codes "status") (okay p) 0 6 })
  unfolding raumfeld_fixup_dtb_controller
  controller-okay m m' off common node there fuel =
      rw (common, node, there, strlen_lem p.fuel (okay p) 0 (codes "okay") okay-Holds fuel)
