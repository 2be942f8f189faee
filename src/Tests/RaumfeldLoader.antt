-- ===== src/Tests/RaumfeldLoader.antt =====
-- The whole loader for a Raumfeld controller with tags.
use pxa_impedance_matcher.Base.{
  ℕ, ◌≡◌, ◌≢◌, ◌∙◌, refl, sym, ap, Option, none, some, true, List, [], ◌∷◌, ◌++◌, arith, codes, All,
  Holds,
}
use pxa_impedance_matcher.Base.Int.{pos}
use pxa_impedance_matcher.Endian.{load32}
use pxa_impedance_matcher.Fdt.{setprop_u32}
use pxa_impedance_matcher.Machine.{Machine, ok}
use pxa_impedance_matcher.Dtbs.{Dtb}
use pxa_impedance_matcher.Dtbs.FindDtb.{Names}
use pxa_impedance_matcher.Atags.Folds.{texts}
use pxa_impedance_matcher.Boards.Shared.{Fixup, Board, Globals}
use pxa_impedance_matcher.Boards.Shared.Matched.{HasTrees, board_of}
use pxa_impedance_matcher.Boards.Raumfeld.Fixups.{raumfeld_fixup_dtb_common, run_fixup}
use pxa_impedance_matcher.Boards.Raumfeld.Fixups.Written.{common-bootargs, controller-okay}
use pxa_impedance_matcher.Boards.Raumfeld.Table.{RaumfeldBoard}
use pxa_impedance_matcher.Boards.Raumfeld.Table.Selected.{Selected, IsMachine, entries, sentinel}
use pxa_impedance_matcher.Boards.Raumfeld.Tags.{tag_text}
use pxa_impedance_matcher.Boards.Raumfeld.Ends.{Served, All-middle}
use pxa_impedance_matcher.Boards.Raumfeld.Match.{variables}
use pxa_impedance_matcher.Matcher.Fixed.{placed_board}
use pxa_impedance_matcher.Matcher.{Config, main}
use pxa_impedance_matcher.Matcher.Raumfeld.{CanFix, Loaded, raumfeld_matcher, raumfeld-Loaded}
use pxa_impedance_matcher.Tests.Setup.{platform, trees}
use pxa_impedance_matcher.Tests.RaumfeldMatch.{
  ram, start, tags_at, tag_list, line_of, loader, entries-Served, loader-CanBlink, tag_list-Tags,
  lines,
}

abbrev pub build : Config
build = record { append_kernel = true; relocate_dtb = none; version = codes "v1" }

-- What the tags set.
abbrev pub globals : Globals
globals = record { system_rev = 2; cmdline = 0x2014 }

globals_lem : variables loader line_of ram 0 tag_list ≡ globals
unfolding load32
globals_lem = refl

cmdline-Holds : Holds ram 0x2014 (b'q' ∷ [])
cmdline-Holds = (refl, omega arith, refl)

common :
    (board : Board) (m : Machine)
    → m.ram ≡ ram
    → raumfeld_fixup_dtb_common loader globals board m ≡ ok tt (record m { ram = ram })
unfolding loader platform setprop_u32
common board m same =
    common-bootargs loader globals board m (pos 8) (b'q' ∷ []) (λ e. omega (arith, e)) refl refl
      (rw same cmdline-Holds) (omega arith)
    ∙ ap (λ r. ok tt (record m { ram = r })) same

abbrev IsGiven : Option Fixup → Type 0
IsGiven none = ⊥
IsGiven (some f) = Unit {0}

given : All (λ e. IsGiven e.fixup_dtb) entries
unfolding entries
given = (tt, (tt, (tt, (tt, (tt, (tt, tt))))))

-- With a common fixup that leaves the RAM.
module _ (g : Globals)
    (common : (board : Board) (m : Machine)
      → m.ram ≡ ram
      → raumfeld_fixup_dtb_common loader g board m ≡ ok tt (record m { ram = ram })) where
  silent :
      (f : Fixup) (board : Board) (m : Machine)
      → m.ram ≡ ram
      → run_fixup loader f g board m ≡ ok tt (record m { ram = ram })
  unfolding loader platform run_fixup
  silent Fixup.fixup_common board m same = common board m same
  silent Fixup.fixup_controller board m same =
      controller-okay loader g board m (record m { ram = ram }) (pos 8) (common board m same) refl
        refl (omega arith)

  pub fixable :
      {Match : RaumfeldBoard → Type 0} (b : RaumfeldBoard) (compat : List ℕ)
      (before after : List Dtb) (d : Dtb)
      → Selected Match entries sentinel b
      → b.compatible ≡ some compat
      → trees ≡ before ++ d ∷ after
      → Names ram compat d
      → CanFix loader build g ram (board_of loader compat b.fixup_dtb d)
  unfolding loader platform
  fixable b compat before after d (Selected.no_match at_end others) named split there =
      absurd (nameless (sym (ap (λ x. x.compatible) at_end) ∙ named))
    where
      nameless : ¬ none ≡ some compat
      nameless e = cc
  fixable b compat before after d (Selected.chosen front back is others match) named split there =
      by_fixup b.fixup_dtb refl
        (All-middle (λ e. IsGiven e.fixup_dtb) front back b (rw (sym is) given))
        (rw named at (
          All-middle (λ e. Served loader ram trees e.compatible) front back b
            (rw (sym is) entries-Served)))
    where
      by_fixup :
          (o : Option Fixup)
          → b.fixup_dtb ≡ o
          → IsGiven o
          → HasTrees loader ram compat trees
          → CanFix loader build g ram (board_of loader compat b.fixup_dtb d)
      by_fixup none e gave trees' = absurd gave
      by_fixup (some f) e gave trees' = record {
        can = record {
          fuel = omega arith;
          version_chars = omega arith;
          version_fuel = omega arith;
          name_chars = trees'.chars;
          name_fuel = trees'.fuel_text;
          has_kernel = λ e. refl;
          apart = λ dest e. cc;
        };
        there = All-middle (λ t. t.addr ≢ 0) before after d (rw (sym split) trees'.not_null);
        fixup = f;
        has = e;
        fixed = ram;
        runs = silent f (placed_board loader build (board_of loader compat b.fixup_dtb d));
      }

raumfeld-Loaded_example :
    (b : RaumfeldBoard) × Selected (IsMachine 2413 globals.system_rev) entries sentinel b
    × Loaded loader loader-CanBlink build 3 2413 ram trees
        (some b)
        globals
        (texts (tag_text loader ram line_of) tag_list)
        start
        (main loader build (raumfeld_matcher loader 3 0) 2413 tags_at start)
unfolding loader platform load32
raumfeld-Loaded_example =
    raumfeld-Loaded loader loader-CanBlink build 3 2413 trees 0 line_of tags_at tag_list start
      (λ e. omega (arith, e)) (omega arith) (omega arith) (omega arith) tag_list-Tags lines
      (omega arith) entries-Served (fixable globals common)
