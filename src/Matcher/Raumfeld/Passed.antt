-- ===== src/Matcher/Raumfeld/Passed.antt =====
-- The whole loader for the Raumfeld boards with a device tree in the place of the tags: main.c with
-- board-raumfeld.c, where the machine is 0xffffffff.
use pxa_impedance_matcher.Base.{
  ℕ, ◌≡◌, ◌<◌, subst, arith, Option, some, List, ◌∷◌, ◌++◌, length, All, View, IsChars,
}
use pxa_impedance_matcher.Machine.{Machine}
use pxa_impedance_matcher.Dtbs.{Dtb}
use pxa_impedance_matcher.Dtbs.FindDtb.{Names}
use pxa_impedance_matcher.Boards.Shared.{Globals, Platform}
use pxa_impedance_matcher.Boards.Shared.Matched.{board_of}
use pxa_impedance_matcher.Boards.Raumfeld.Select.{CanBlink}
use pxa_impedance_matcher.Boards.Raumfeld.Table.{RaumfeldBoard}
use pxa_impedance_matcher.Boards.Raumfeld.Table.Selected.{entries}
use pxa_impedance_matcher.Boards.Raumfeld.Passed.{
  HasStrings, Chosen, compatible_prop, dtb_variables, dtb_text,
}
use pxa_impedance_matcher.Boards.Raumfeld.Ends.{Served, Ends}
use pxa_impedance_matcher.Boards.Raumfeld.Match.{match_board-from_dtb}
use pxa_impedance_matcher.Matcher.{Config, main}
use pxa_impedance_matcher.Matcher.Boot.{banner-Prints}
use pxa_impedance_matcher.Matcher.Raumfeld.{CanFix, Loaded, raumfeld_matcher, Ends-Loaded}

module _ (p : Platform) (blink : CanBlink p) (cfg : Config) (rounds : ℕ) (bs : List Dtb)
    (system_rev : ℕ) where
  -- What the loader knows of the passed tree.
  abbrev pub passed : View → ℕ → Globals
  passed ram dtb = dtb_variables p ram dtb (record { system_rev = system_rev; cmdline = 0 })

  -- On the machine 0xffffffff, with a passed tree whose command line and name, where it has them,
  -- are strings (HasStrings), a chain of trees in which each name of the table can be looked for
  -- (Served), fuel for the messages, a board that can blink (CanBlink), and trees and fixups that
  -- main can boot with for the entry that the passed tree's name selects (CanFix), the Raumfeld
  -- loader prints its messages and starts the kernel with the first appended tree of the entry's
  -- name, placed, opened, fixed with the revision and the command line of the passed tree, and
  -- packed; or it says that there is no entry or no tree, and blinks without end.
  pub passed-Loaded :
      (dtb : ℕ) (args name : List ℕ) (m : Machine)
      → 50 < p.fuel
      → IsChars cfg.version
      → length cfg.version < p.fuel
      → HasStrings p m.ram dtb args name
      → All (λ e. Served p m.ram bs e.compatible) entries
      → ((e : RaumfeldBoard) (compat : List ℕ) (before after : List Dtb) (d : Dtb)
          → Chosen (compatible_prop p m.ram dtb) name (some e)
          → e.compatible ≡ some compat
          → bs ≡ before ++ d ∷ after
          → Names m.ram compat d
          → CanFix p cfg (passed m.ram dtb) m.ram (board_of p compat e.fixup_dtb d))
      → (b : Option RaumfeldBoard) × Chosen (compatible_prop p m.ram dtb) name b
        × Loaded p blink cfg rounds 0xffffffff m.ram bs b
            (passed m.ram dtb)
            (dtb_text p m.ram dtb args name)
            m
            (main p cfg (raumfeld_matcher p rounds system_rev) 0xffffffff dtb m)
  passed-Loaded dtb args name m fuel chars short strings served fixes =
      let first = banner-Prints p cfg (omega arith) chars short m in
      let (b, selected, ends) =
        subst
          (λ r.
            (b : Option RaumfeldBoard) × Chosen (compatible_prop p r dtb) name b
            × Ends p blink rounds 0xffffffff r bs b (passed r dtb) (dtb_text p r dtb args name)
                first.after (raumfeld_matcher p rounds system_rev 0xffffffff dtb first.after))
          first.same_ram
          (match_board-from_dtb p blink rounds bs dtb system_rev args name first.after fuel
            (rw first.same_ram strings) (rw first.same_ram served)) in
      (
        b,
        selected,
        Ends-Loaded p blink cfg rounds 0xffffffff bs system_rev dtb b (passed m.ram dtb)
            (dtb_text p m.ram dtb args name) m first
            (λ e compat before after d is.
              fixes e compat before after d
                (subst (Chosen (compatible_prop p m.ram dtb) name) is selected))
            ends,
      )
