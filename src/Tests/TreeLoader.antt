-- ===== src/Tests/TreeLoader.antt =====
-- main with the common fixup on one device tree.
use pxa_impedance_matcher.Base.{◌≡◌, refl, sym, subst, true, none, List, [], ◌∷◌, arith, codes}
use pxa_impedance_matcher.Base.Int.{pos}
use pxa_impedance_matcher.Ram.{store}
use pxa_impedance_matcher.Fdt.{setprop_u32}
use pxa_impedance_matcher.Machine.{Event, ok, pure}
use pxa_impedance_matcher.Machine.Prints.{Gives-pure}
use pxa_impedance_matcher.Boards.Shared.{Fixup}
use pxa_impedance_matcher.Boards.Raumfeld.Fixups.{run_fixup}
use pxa_impedance_matcher.Boards.Raumfeld.Fixups.Written.{common-bootargs}
use pxa_impedance_matcher.Matcher.{Config, main}
use pxa_impedance_matcher.Matcher.Start.{CanBoot, main_text}
use pxa_impedance_matcher.Matcher.Fixed.{StartsFixed, main-StartsFixed}
use pxa_impedance_matcher.Tests.Setup.{platform}
use pxa_impedance_matcher.Matcher.Says.{StartsEdited, main-StartsEdited}
use pxa_impedance_matcher.Tests.Trees.{
  loader, board, before, globals, complete, root_set, chosen_set,
}

-- A build that leaves the tree where it is.
abbrev build : Config
build = record { append_kernel = true; relocate_dtb = none; version = codes "v1" }

board-CanBoot : CanBoot loader build board
unfolding loader platform
board-CanBoot = record {
  fuel = omega arith;
  version_chars = omega arith;
  version_fuel = omega arith;
  name_chars = omega arith;
  name_fuel = omega arith;
  has_kernel = λ e. absurd (omega arith);
  apart = λ dest e. cc;
}

fixup_runs :
    (h : List Event)
    → run_fixup loader Fixup.fixup_common globals board (record { ram = before.ram; history = h })
      ≡ ok tt (record { ram = complete; history = h })
unfolding loader run_fixup setprop_u32 store
fixup_runs h =
    common-bootargs loader globals board (record { ram = before.ram; history = h }) (pos 8)
      (b'q' ∷ []) (λ e. omega arith) refl refl (refl, omega arith, refl) (omega arith)

main-StartsFixed_example :
    StartsFixed loader build board complete
      (main_text loader build board [])
      before
      (main loader build (λ machid tags. pure (board, globals)) 2413 0x100 before)
unfolding loader
main-StartsFixed_example =
    main-StartsFixed loader build board board-CanBoot (λ machid tags. pure (board, globals)) 2413
      0x100 globals [] Fixup.fixup_common complete before (λ m' e. Gives-pure (board, globals) m')
      (λ e. omega arith) refl
      (λ m' same.
        subst
          (λ r.
            run_fixup loader Fixup.fixup_common globals board
              (record { ram = r; history = m'.history })
            ≡ ok tt (record { ram = complete; history = m'.history }))
          (sym same) (fixup_runs m'.history))

main-StartsEdited_example :
    StartsEdited loader build board globals
      (b'q' ∷ [])
      0
      before.ram
      (main_text loader build board [])
      before
      (main loader build (λ machid tags. pure (board, globals)) 2413 0x100 before)
unfolding loader setprop_u32 store
main-StartsEdited_example =
    main-StartsEdited loader build board board-CanBoot (λ machid tags. pure (board, globals)) 2413
      0x100 8 globals (b'q' ∷ []) [] before (λ m' e. Gives-pure (board, globals) m')
      (λ e. omega arith) refl
      (record {
        given = λ e. omega arith;
        root = refl;
        chosen = refl;
        text = (refl, omega arith, refl);
        enough = omega arith;
        first = (root_set, refl);
        second = (chosen_set, refl);
      })
