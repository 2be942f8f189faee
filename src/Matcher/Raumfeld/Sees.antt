-- ===== src/Matcher/Raumfeld/Sees.antt =====
-- What the kernel is started with by the whole loader for the Raumfeld boards with tags, where the
-- entry has the common fixup.
use pxa_impedance_matcher.Base.{
  ℕ, ◌+◌, codes, refl, ◌≡◌, ◌≢◌, ◌<◌, Option, none, some, List, [], ◌∷◌, ◌++◌, length, All, View,
  IsChars,
}
use pxa_impedance_matcher.Base.Int.{pos}
use pxa_impedance_matcher.Machine.{Machine, Run}
use pxa_impedance_matcher.Machine.Prints.{Prints, Stops}
use pxa_impedance_matcher.Dtbs.{Dtb}
use pxa_impedance_matcher.Dtbs.FindDtb.{Names}
use pxa_impedance_matcher.Atags.Walk.{Tags}
use pxa_impedance_matcher.Atags.Folds.{texts}
use pxa_impedance_matcher.Boards.Shared.{Fixup, Board, Globals, Platform}
use pxa_impedance_matcher.Boards.Shared.Matched.{IsLine, board_of, missing_text}
use pxa_impedance_matcher.Boards.Raumfeld.Select.{CanBlink, no_board_text}
use pxa_impedance_matcher.Boards.Raumfeld.Table.{RaumfeldBoard}
use pxa_impedance_matcher.Boards.Raumfeld.Table.Selected.{Selected, IsMachine, entries, sentinel}
use pxa_impedance_matcher.Boards.Raumfeld.Tags.{HasLine, tag_text}
use pxa_impedance_matcher.Boards.Raumfeld.LastLine.{last_line, kept-IsLine, Holds-same}
use pxa_impedance_matcher.Boards.Raumfeld.Fixups.Written.{with_revision}
use pxa_impedance_matcher.Boards.Raumfeld.Fixups.Content.{Revises, SetsLine}
use pxa_impedance_matcher.Boards.Raumfeld.Ends.{Served, Ends, some_eq}
use pxa_impedance_matcher.Boards.Raumfeld.Match.{variables}
use pxa_impedance_matcher.Matcher.{Config, Jump, banner, main}
use pxa_impedance_matcher.Matcher.Start.{CanBoot, banner_text, main_text}
use pxa_impedance_matcher.Matcher.Boot.{banner-Prints}
use pxa_impedance_matcher.Matcher.Fixed.{tree_at, placed_board, opened_ram, main-StartsFixed-banner}
use pxa_impedance_matcher.Matcher.Loader.{main-Stops}
use pxa_impedance_matcher.Matcher.Raumfeld.{raumfeld_matcher, first-Ends}
use pxa_impedance_matcher.Matcher.Says.{
  StartsEdited, CanEdit, edited, behind, edits-Silent, StartsFixed-StartsEdited,
}

-- What main needs for a board that match_board returns with the common fixup and the command line
-- `xs`: that it can boot, a command line whose bytes stand as they were once the tree is placed and
-- opened and the revision is written, the root at offset 0 and a /chosen node in the tree that
-- fdt_open_into leaves, and two calls that set their properties and return 0.
pub record CanHand (p : Platform) (cfg : Config) (g : Globals) (xs : List ℕ) (ram : View)
    (board : Board) : Type 0 where
  pub can : CanBoot p cfg board
  pub there : board.dtb ≢ 0
  pub has : board.fixup_dtb ≡ some Fixup.fixup_common
  pub given : g.cmdline ≢ 0
  pub node : ℕ
  pub root : p.fdt.path_offset (opened_ram p cfg board ram) (tree_at cfg board) (codes "/") ≡ pos 0
  pub chosen :
      p.fdt.path_offset
        (with_revision p g (placed_board p cfg board) (opened_ram p cfg board ram))
        (tree_at cfg board)
        (codes "/chosen")
      ≡ pos node
  pub kept :
      (i : ℕ)
      → i < length xs + 1
      → with_revision p g (placed_board p cfg board) (opened_ram p cfg board ram) (g.cmdline + i)
        ≡ ram (g.cmdline + i)
  pub first : Revises p g (tree_at cfg board) (opened_ram p cfg board ram)
  pub second :
      SetsLine p g
        (tree_at cfg board)
        node
        (length xs)
        (with_revision p g (placed_board p cfg board) (opened_ram p cfg board ram))

CanHand-CanEdit :
    (p : Platform) (cfg : Config) (g : Globals) (xs : List ℕ) (ram : View) (board : Board)
    (hand : CanHand p cfg g xs ram board)
    → (g.cmdline ≢ 0 → IsLine p.fuel ram g.cmdline xs)
    → CanEdit p cfg board g hand.node xs ram
CanHand-CanEdit p cfg g xs ram board hand is_line =
    let (text, small, short) = is_line hand.given in
    record {
      given = hand.given;
      root = hand.root;
      chosen = hand.chosen;
      text = Holds-same ram _ g.cmdline xs hand.kept text;
      enough = short;
      first = hand.first;
      second = hand.second;
    }

-- How the loader ends: the kernel is started with what fdt_pack leaves of the first tree that names
-- the entry's board, with the revision and the command line in it; or there is no tree, or no board, and the LEDs blink without end.
pub data Handed (p : Platform) (blink : CanBlink p) (cfg : Config) (rounds machid : ℕ) (ram : View)
    (bs : List Dtb) (b : Option RaumfeldBoard) (g : Globals) (xs pre : List ℕ) (m : Machine)
    (r : Run Jump) : Type 0 where
  starts :
      (e : RaumfeldBoard) (compat : List ℕ) (before after : List Dtb) (d : Dtb)
      → b ≡ some e
      → e.compatible ≡ some compat
      → bs ≡ before ++ d ∷ after
      → All (λ t. ¬ Names ram compat t) before
      → Names ram compat d
      → StartsEdited p cfg
          (board_of p compat e.fixup_dtb d)
          g
          xs
          (behind p cfg (board_of p compat e.fixup_dtb d) g xs ram)
          (opened_ram p cfg (board_of p compat e.fixup_dtb d) ram)
          (main_text p cfg (board_of p compat e.fixup_dtb d) pre)
          m
          r
      → Handed p blink cfg rounds machid ram bs b g xs pre m r
  no_tree :
      (e : RaumfeldBoard) (compat : List ℕ)
      → b ≡ some e
      → e.compatible ≡ some compat
      → All (λ t. ¬ Names ram compat t) bs
      → Stops p.serial.wire (banner_text p cfg ++ (pre ++ missing_text p compat [])) m r
      → Handed p blink cfg rounds machid ram bs b g xs pre m r
  unknown :
      ((e : RaumfeldBoard) → b ≡ some e → e.compatible ≡ none)
      → Stops p.serial.wire
          (banner_text p cfg ++ (pre ++ no_board_text p blink rounds machid g))
          m
          r
      → Handed p blink cfg rounds machid ram bs b g xs pre m r

module _ (p : Platform) (blink : CanBlink p) (cfg : Config) (rounds machid : ℕ) (bs : List Dtb)
    (system_rev : ℕ) where
  Ends-Handed :
      (tags : ℕ) (b : Option RaumfeldBoard) (g : Globals) (xs pre : List ℕ) (m : Machine)
      → (g.cmdline ≢ 0 → IsLine p.fuel m.ram g.cmdline xs)
      → (first : Prints p.serial.wire (banner_text p cfg) m (banner p cfg m))
      → ((e : RaumfeldBoard) (compat : List ℕ) (before after : List Dtb) (d : Dtb)
          → b ≡ some e
          → e.compatible ≡ some compat
          → bs ≡ before ++ d ∷ after
          → Names m.ram compat d
          → CanHand p cfg g xs m.ram (board_of p compat e.fixup_dtb d))
      → Ends p blink rounds machid m.ram bs b g pre first.after
          (raumfeld_matcher p rounds system_rev machid tags first.after)
      → Handed p blink cfg rounds machid m.ram bs b g xs pre m
          (main p cfg (raumfeld_matcher p rounds system_rev) machid tags m)
  Ends-Handed tags b g xs pre m is_line first hands
        (Ends.board e compat before after d is named split others there gives) =
      let hand = hands e compat before after d is named split there in
      let board = board_of p compat e.fixup_dtb d in
      let edit = CanHand-CanEdit p cfg g xs m.ram board hand is_line in
      starts e compat before after d is named split others there (
        StartsFixed-StartsEdited p cfg board g hand.node xs m.ram edit (main_text p cfg board pre) m
          _
          (main-StartsFixed-banner p cfg board hand.can (raumfeld_matcher p rounds system_rev)
            machid tags g pre Fixup.fixup_common (edited p cfg board g hand.node xs m.ram edit) m
            first gives hand.there hand.has (edits-Silent p cfg board g hand.node xs m.ram edit)))
  Ends-Handed tags b g xs pre m is_line first hands
        (Ends.no_tree e compat is named none_there stops) =
      no_tree e compat is named none_there
        (main-Stops p cfg (raumfeld_matcher p rounds system_rev) machid tags m first stops)
  Ends-Handed tags b g xs pre m is_line first hands (Ends.unknown nameless stops) =
      unknown nameless
        (main-Stops p cfg (raumfeld_matcher p rounds system_rev) machid tags m first stops)

  -- On a machine that is not 0xffffffff, with a list of tags that ends, in which each command line
  -- is a string within the fuel (HasLine), a chain of trees in which each name of the table can be
  -- looked for (Served), a printable version, fuel of more than 30 and for the version and the
  -- tags, and a board that can blink (CanBlink); and, for the entry that the machine and the last
  -- revision tag select and any tree that has its name (CanHand): the common fixup, a tree that is
  -- there and that main can boot with (CanBoot), a tag with a command line, whose bytes with the
  -- NUL stand as they were once the tree is placed and opened and the revision is written, the root
  -- at offset 0 in the tree that fdt_open_into leaves, /chosen once the revision is written, and
  -- two calls of libfdt that set their properties and return 0. Then the Raumfeld loader prints its
  -- messages and starts the kernel with what fdt_pack leaves of the first tree of the entry's name,
  -- which by then says the low byte of the tags' revision as hw-revision and as bootargs the
  -- command line of the last tag that holds one, with its NUL and the byte behind it, and of every
  -- other name what the tree says that fdt_open_into leaves; or it says that there is no entry or
  -- no tree, and blinks without end. What fdt_open_into and fdt_pack do to a tree is not said.
  pub raumfeld-Handed :
      (line_of : ℕ → List ℕ) (tags : ℕ) (ts : List ℕ) (m : Machine)
      → let g = variables p line_of m.ram system_rev ts in
        let xs = last_line p m.ram line_of ts [] in
        machid ≢ 0xffffffff
        → 30 < p.fuel
        → IsChars cfg.version
        → length cfg.version < p.fuel
        → Tags m.ram tags ts
        → All (HasLine p m.ram line_of) ts
        → length ts < p.fuel
        → All (λ e. Served p m.ram bs e.compatible) entries
        → ((b : RaumfeldBoard) (compat : List ℕ) (before after : List Dtb) (d : Dtb)
            → Selected (IsMachine machid g.system_rev) entries sentinel b
            → b.compatible ≡ some compat
            → bs ≡ before ++ d ∷ after
            → Names m.ram compat d
            → CanHand p cfg g xs m.ram (board_of p compat b.fixup_dtb d))
        → (b : RaumfeldBoard) × Selected (IsMachine machid g.system_rev) entries sentinel b
          × Handed p blink cfg rounds machid m.ram bs
              (some b)
              g
              xs
              (texts (tag_text p m.ram line_of) ts)
              m
              (main p cfg (raumfeld_matcher p rounds system_rev) machid tags m)
  raumfeld-Handed line_of tags ts m not_dtb fuel chars short walk fine count served hands =
      let first = banner-Prints p cfg fuel chars short m in
      let (b, selected, ends) =
        first-Ends p blink cfg rounds machid bs system_rev line_of tags ts m first not_dtb fuel walk
          fine count served in
      (
        b,
        selected,
        Ends-Handed tags (some b) (variables p line_of m.ram system_rev ts)
            (last_line p m.ram line_of ts []) (texts (tag_text p m.ram line_of) ts) m
            (kept-IsLine p m.ram line_of ts (record { system_rev = system_rev; cmdline = 0 }) []
              fine (λ given. absurd (given refl)))
            first
            (λ e compat before after d is.
              rw (some_eq e b is)
                (λ named split there. hands b compat before after d selected named split there))
            ends,
      )
