-- ===== src/Matcher/Raumfeld.antt =====
-- The whole loader for the Raumfeld boards with tags: main.c with board-raumfeld.c.
pub mod Passed
pub mod Sees
use pxa_impedance_matcher.Base.{
  Option, ℕ, ◌≡◌, ◌≢◌, ◌<◌, subst, none, some, List, [], ◌∷◌, ◌++◌, length, All, View, IsChars,
}
use pxa_impedance_matcher.Machine.{Machine, Run, Cmd}
use pxa_impedance_matcher.Machine.Prints.{Prints, Stops}
use pxa_impedance_matcher.Dtbs.{Dtb}
use pxa_impedance_matcher.Dtbs.FindDtb.{Names}
use pxa_impedance_matcher.Atags.Walk.{Tags}
use pxa_impedance_matcher.Atags.Folds.{texts}
use pxa_impedance_matcher.Boards.Shared.{Fixup, Board, Globals, Platform}
use pxa_impedance_matcher.Boards.Shared.Matched.{board_of, missing_text}
use pxa_impedance_matcher.Boards.Raumfeld.{match_board}
use pxa_impedance_matcher.Boards.Raumfeld.Select.{CanBlink, no_board_text}
use pxa_impedance_matcher.Boards.Raumfeld.Table.{RaumfeldBoard}
use pxa_impedance_matcher.Boards.Raumfeld.Table.Selected.{Selected, IsMachine, entries, sentinel}
use pxa_impedance_matcher.Boards.Raumfeld.Tags.{HasLine, tag_text}
use pxa_impedance_matcher.Boards.Raumfeld.Ends.{Served, Ends, some_eq}
use pxa_impedance_matcher.Boards.Raumfeld.Match.{variables, match_board-from_atags}
use pxa_impedance_matcher.Matcher.{Config, Jump, banner, main}
use pxa_impedance_matcher.Matcher.Start.{CanBoot, banner_text, main_text}
use pxa_impedance_matcher.Matcher.Boot.{banner-Prints}
use pxa_impedance_matcher.Matcher.Fixed.{StartsFixed, Silent, opened_ram, main-StartsFixed-banner}
use pxa_impedance_matcher.Matcher.Loader.{main-Stops}

-- What main needs for a board that match_board returns: a tree, and a fixup that prints nothing.
pub record CanFix (p : Platform) (cfg : Config) (g : Globals) (ram : View) (board : Board)
    : Type 0 where
  pub can : CanBoot p cfg board
  pub there : board.dtb ≢ 0
  pub fixup : Fixup
  pub has : board.fixup_dtb ≡ some fixup
  pub fixed : View
  pub runs : Silent p cfg board fixup g (opened_ram p cfg board ram) fixed

-- How the loader ends with the entry `b`, the variables `g`, and `pre` printed on the way: the kernel
-- is started with the first tree that names the entry's board, fixed; or there is no tree, or no
-- board, which is said, and the LEDs blink without end.
pub data Loaded (p : Platform) (blink : CanBlink p) (cfg : Config) (rounds machid : ℕ) (ram : View)
    (bs : List Dtb) (b : Option RaumfeldBoard) (g : Globals) (pre : List ℕ) (m : Machine)
    (r : Run Jump) : Type 0 where
  started :
      (e : RaumfeldBoard) (compat : List ℕ) (before after : List Dtb) (d : Dtb)
      (fix : CanFix p cfg g ram (board_of p compat e.fixup_dtb d))
      → b ≡ some e
      → e.compatible ≡ some compat
      → bs ≡ before ++ d ∷ after
      → All (λ t. ¬ Names ram compat t) before
      → Names ram compat d
      → StartsFixed p cfg
          (board_of p compat e.fixup_dtb d)
          fix.fixed
          (main_text p cfg (board_of p compat e.fixup_dtb d) pre)
          m
          r
      → Loaded p blink cfg rounds machid ram bs b g pre m r
  no_tree :
      (e : RaumfeldBoard) (compat : List ℕ)
      → b ≡ some e
      → e.compatible ≡ some compat
      → All (λ t. ¬ Names ram compat t) bs
      → Stops p.serial.wire (banner_text p cfg ++ (pre ++ missing_text p compat [])) m r
      → Loaded p blink cfg rounds machid ram bs b g pre m r
  unknown :
      ((e : RaumfeldBoard) → b ≡ some e → e.compatible ≡ none)
      → Stops p.serial.wire
          (banner_text p cfg ++ (pre ++ no_board_text p blink rounds machid g))
          m
          r
      → Loaded p blink cfg rounds machid ram bs b g pre m r

-- match_board with the variable that is 0 at the start.
abbrev pub raumfeld_matcher : Platform → ℕ → ℕ → ℕ → ℕ → Cmd (Board × Globals)
raumfeld_matcher p rounds system_rev id tags = match_board p rounds id tags system_rev

module _ (p : Platform) (blink : CanBlink p) (cfg : Config) (rounds machid : ℕ) (bs : List Dtb)
    (system_rev : ℕ) where
  pub Ends-Loaded :
      (tags : ℕ) (b : Option RaumfeldBoard) (g : Globals) (pre : List ℕ) (m : Machine)
      (first : Prints p.serial.wire (banner_text p cfg) m (banner p cfg m))
      → ((e : RaumfeldBoard) (compat : List ℕ) (before after : List Dtb) (d : Dtb)
          → b ≡ some e
          → e.compatible ≡ some compat
          → bs ≡ before ++ d ∷ after
          → Names m.ram compat d
          → CanFix p cfg g m.ram (board_of p compat e.fixup_dtb d))
      → Ends p blink rounds machid m.ram bs b g pre first.after
          (raumfeld_matcher p rounds system_rev machid tags first.after)
      → Loaded p blink cfg rounds machid m.ram bs b g pre m
          (main p cfg (raumfeld_matcher p rounds system_rev) machid tags m)
  Ends-Loaded tags b g pre m first fixes
        (Ends.board e compat before after d is named split others there gives) =
      let fix = fixes e compat before after d is named split there in
      started e compat before after d fix is named split others there (
        main-StartsFixed-banner p cfg (board_of p compat e.fixup_dtb d) fix.can
          (raumfeld_matcher p rounds system_rev) machid tags g pre fix.fixup fix.fixed m first gives
          fix.there fix.has fix.runs)
  Ends-Loaded tags b g pre m first fixes (Ends.no_tree e compat is named none_there stops) =
      no_tree e compat is named none_there
        (main-Stops p cfg (raumfeld_matcher p rounds system_rev) machid tags m first stops)
  Ends-Loaded tags b g pre m first fixes (Ends.unknown nameless stops) =
      unknown nameless
        (main-Stops p cfg (raumfeld_matcher p rounds system_rev) machid tags m first stops)

  -- match_board after the first message.
  pub first-Ends :
      (line_of : ℕ → List ℕ) (tags : ℕ) (ts : List ℕ) (m : Machine)
      (first : Prints p.serial.wire (banner_text p cfg) m (banner p cfg m))
      → let g = variables p line_of m.ram system_rev ts in
        machid ≢ 0xffffffff
        → 30 < p.fuel
        → Tags m.ram tags ts
        → All (HasLine p m.ram line_of) ts
        → length ts < p.fuel
        → All (λ e. Served p m.ram bs e.compatible) entries
        → (b : RaumfeldBoard) × Selected (IsMachine machid g.system_rev) entries sentinel b
          × Ends p blink rounds machid m.ram bs
              (some b)
              g
              (texts (tag_text p m.ram line_of) ts)
              first.after
              (raumfeld_matcher p rounds system_rev machid tags first.after)
  first-Ends line_of tags ts m first not_dtb fuel walk fine count served =
      subst
        (λ r.
          (b : RaumfeldBoard) × Selected
            (IsMachine machid (variables p line_of r system_rev ts).system_rev) entries sentinel b
          × Ends p blink rounds machid r bs (some b) (variables p line_of r system_rev ts)
              (texts (tag_text p r line_of) ts) first.after
              (raumfeld_matcher p rounds system_rev machid tags first.after))
        first.same_ram
        (match_board-from_atags p blink rounds machid bs line_of tags ts system_rev first.after
          not_dtb fuel (rw first.same_ram walk) (rw first.same_ram fine) count
          (rw first.same_ram served))

  -- On a machine that is not 0xffffffff, with a list of tags that ends, in which each command line
  -- is a string (HasLine), a chain of trees in which each name of the table can be looked for
  -- (Served), fuel for the tags and the messages, a board that can blink (CanBlink), and trees and
  -- fixups that main can boot with for the entry that the machine and the last revision tag select
  -- (CanFix), the Raumfeld loader prints its messages and starts the kernel with the first tree of
  -- the entry's name, placed, opened, fixed and packed; or it says that there is no entry or no tree,
  -- and blinks without end.
  pub raumfeld-Loaded :
      (line_of : ℕ → List ℕ) (tags : ℕ) (ts : List ℕ) (m : Machine)
      → machid ≢ 0xffffffff
      → 30 < p.fuel
      → IsChars cfg.version
      → length cfg.version < p.fuel
      → Tags m.ram tags ts
      → All (HasLine p m.ram line_of) ts
      → length ts < p.fuel
      → All (λ e. Served p m.ram bs e.compatible) entries
      → ((b : RaumfeldBoard) (compat : List ℕ) (before after : List Dtb) (d : Dtb)
          → Selected
              (IsMachine machid (variables p line_of m.ram system_rev ts).system_rev)
              entries
              sentinel
              b
          → b.compatible ≡ some compat
          → bs ≡ before ++ d ∷ after
          → Names m.ram compat d
          → CanFix p cfg
              (variables p line_of m.ram system_rev ts)
              m.ram
              (board_of p compat b.fixup_dtb d))
      → (b : RaumfeldBoard) × Selected
          (IsMachine machid (variables p line_of m.ram system_rev ts).system_rev)
          entries
          sentinel
          b
        × Loaded p blink cfg rounds machid m.ram bs
            (some b)
            (variables p line_of m.ram system_rev ts)
            (texts (tag_text p m.ram line_of) ts)
            m
            (main p cfg (raumfeld_matcher p rounds system_rev) machid tags m)
  raumfeld-Loaded line_of tags ts m not_dtb fuel chars short walk fine count served fixes =
      let first = banner-Prints p cfg fuel chars short m in
      let (b, selected, ends) =
        first-Ends line_of tags ts m first not_dtb fuel walk fine count served in
      (
        b,
        selected,
        Ends-Loaded tags (some b) (variables p line_of m.ram system_rev ts)
            (texts (tag_text p m.ram line_of) ts) m first
            (λ e compat before after d is.
              rw (some_eq e b is)
                (λ named split there. fixes b compat before after d selected named split there))
            ends,
      )
