-- ===== src/Tests/RaumfeldPassed.antt =====
-- The whole loader for a Raumfeld controller with a passed device tree, which has a name and no more.
use pxa_impedance_matcher.Base.{◌≡◌, ◌∙◌, refl, ap, sym, subst, Option, [], arith, some}
use pxa_impedance_matcher.Fdt.{setprop_u32}
use pxa_impedance_matcher.Machine.{Machine, ok}
use pxa_impedance_matcher.Boards.Shared.{Board, Globals}
use pxa_impedance_matcher.Boards.Raumfeld.Fixups.{raumfeld_fixup_dtb_common}
use pxa_impedance_matcher.Boards.Raumfeld.Fixups.Written.{common-revision}
use pxa_impedance_matcher.Boards.Raumfeld.Table.{RaumfeldBoard}
use pxa_impedance_matcher.Boards.Raumfeld.Table.Selected.{Selected, HasName, entries, sentinel}
use pxa_impedance_matcher.Boards.Raumfeld.Passed.{Chosen, compatible_prop, dtb_text}
use pxa_impedance_matcher.Matcher.{main}
use pxa_impedance_matcher.Matcher.Raumfeld.{Loaded, raumfeld_matcher}
use pxa_impedance_matcher.Matcher.Raumfeld.Passed.{passed-Loaded}
use pxa_impedance_matcher.Tests.Setup.{platform, trees, controller_name}
use pxa_impedance_matcher.Tests.RaumfeldMatch.{
  ram, start, loader, entries-Served, loader-CanBlink, strings,
}
use pxa_impedance_matcher.Tests.RaumfeldLoader.{build, fixable}

abbrev globals : Globals
globals = record { system_rev = 7; cmdline = 0 }

common :
    (board : Board) (m : Machine)
    → m.ram ≡ ram
    → raumfeld_fixup_dtb_common loader globals board m ≡ ok tt (record m { ram = ram })
unfolding loader platform setprop_u32
common board m same =
    common-revision loader globals board m refl ∙ ap (λ r. ok tt (record m { ram = r })) same

some_eq : (x y : RaumfeldBoard) → some x ≡ some y → x ≡ y
some_eq x y e = cc

passed-Loaded_example :
    (b : Option RaumfeldBoard) × Chosen (compatible_prop loader ram 0x1000) controller_name b
    × Loaded loader loader-CanBlink build 3 0xffffffff ram trees b globals
        (dtb_text loader ram 0x1000 [] controller_name)
        start
        (main loader build (raumfeld_matcher loader 3 7) 0xffffffff 0x1000 start)
unfolding loader platform
passed-Loaded_example =
    passed-Loaded loader loader-CanBlink build 3 trees 7 0x1000 [] controller_name start
      (omega arith) (omega arith) (omega arith) strings entries-Served
      (λ e compat before after d (x, is, selected). fixable globals common e compat before after d (
        subst (Selected (HasName controller_name) entries sentinel) (sym (some_eq e x is))
          selected))
