-- ===== src/Matcher/Says.antt =====
-- What the device tree says that main.c hands to fdt_pack before it starts the kernel, on the Raumfeld
-- boards with the common fixup.
use pxa_impedance_matcher.Base.{
  ℕ, ◌+◌, ◌<◌, ◌≡◌, ◌≢◌, refl, ap, ◌∙◌, some, List, ◌++◌, codes, length, View, Holds,
}
use pxa_impedance_matcher.Base.Int.{pos}
use pxa_impedance_matcher.Machine.{Machine, Run, ok, Cmd}
use pxa_impedance_matcher.Machine.Prints.{Gives}
use pxa_impedance_matcher.Boards.Shared.{Fixup, Board, Globals, Platform}
use pxa_impedance_matcher.Boards.Raumfeld.Fixups.{run_fixup}
use pxa_impedance_matcher.Boards.Raumfeld.Fixups.Written.{
  with_revision, with_string, common-bootargs,
}
use pxa_impedance_matcher.Boards.Raumfeld.Fixups.Content.{
  Revises, SetsLine, SaysLine, common-SaysLine,
}
use pxa_impedance_matcher.Matcher.{Config, Jump, main}
use pxa_impedance_matcher.Matcher.Start.{CanBoot, entry_of, main_text}
use pxa_impedance_matcher.Matcher.Fixed.{
  tree_at, placed_board, opened_ram, Silent, StartsFixed, main-StartsFixed,
}

module _ (p : Platform) (cfg : Config) (board : Board) (g : Globals) (n : ℕ) (xs : List ℕ)
    (ram : View) (given : g.cmdline ≢ 0)
    (root : p.fdt.path_offset ram (tree_at cfg board) (codes "/") ≡ pos 0)
    (chosen : p.fdt.path_offset
        (with_revision p g (placed_board p cfg board) ram)
        (tree_at cfg board)
        (codes "/chosen")
      ≡ pos n)
    (text : Holds (with_revision p g (placed_board p cfg board) ram) g.cmdline xs)
    (enough : length xs < p.fuel) where
  abbrev revised : View
  revised = with_revision p g (placed_board p cfg board) ram

  pub fixed : View
  fixed =
      with_string p g (placed_board p cfg board) revised (pos n) (codes "bootargs") revised
        g.cmdline (length xs + 1 + 1)

  runs :
      (m : Machine)
      → m.ram ≡ ram
      → run_fixup p Fixup.fixup_common g (placed_board p cfg board) m
        ≡ ok tt (record m { ram = fixed })
  unfolding run_fixup fixed
  runs m same =
      common-bootargs p g (placed_board p cfg board) m (pos n) xs given (rw same chosen) refl
        (rw same text) enough
      ∙ ap
          (λ r. ok tt (record m {
            ram =
                with_string p g (placed_board p cfg board)
                  (with_revision p g (placed_board p cfg board) r) (pos n) (codes "bootargs")
                  (with_revision p g (placed_board p cfg board) r) g.cmdline (length xs + 1 + 1);
          }))
          same

  says :
      Revises p g (tree_at cfg board) ram
      → SetsLine p g (tree_at cfg board) n (length xs) revised
      → SaysLine p g (tree_at cfg board) xs (revised (g.cmdline + length xs + 1)) ram fixed
  unfolding fixed
  says = common-SaysLine p g (placed_board p cfg board) ram n xs text

-- The kernel is started with what fdt_pack leaves of a tree that says the revision and the command
-- line, and else what the tree says in the RAM `opened`.
pub record StartsEdited (p : Platform) (cfg : Config) (board : Board) (g : Globals) (xs : List ℕ)
    (last : ℕ) (opened : View) (out : List ℕ) (m : Machine) (r : Run Jump) : Type 0 where
  pub after : Machine
  pub returns :
      r
      ≡ ok
          (record { entry = entry_of p board; r0 = 0; r1 = 0xffffffff; r2 = tree_at cfg board })
          after
  pub built : View
  pub packed : after.ram ≡ (p.fdt.pack built (tree_at cfg board)).0
  pub says : SaysLine p g (tree_at cfg board) xs last opened built
  pub line : p.serial.wire after.history ≡ p.serial.wire m.history ++ out

-- What the tree and libfdt must be like for the fixup of a board, from the RAM `ram` of the loader on:
-- the command line `xs` a string within the fuel once the revision is written, the root at offset 0
-- and a /chosen node at `n` in the tree that fdt_open_into leaves, and two calls that set their
-- properties and return 0.
pub record CanEdit (p : Platform) (cfg : Config) (board : Board) (g : Globals) (n : ℕ) (xs : List ℕ)
    (ram : View) : Type 0 where
  pub given : g.cmdline ≢ 0
  pub root : p.fdt.path_offset (opened_ram p cfg board ram) (tree_at cfg board) (codes "/") ≡ pos 0
  pub chosen :
      p.fdt.path_offset
        (with_revision p g (placed_board p cfg board) (opened_ram p cfg board ram))
        (tree_at cfg board)
        (codes "/chosen")
      ≡ pos n
  pub text :
      Holds (with_revision p g (placed_board p cfg board) (opened_ram p cfg board ram)) g.cmdline xs
  pub enough : length xs < p.fuel
  pub first : Revises p g (tree_at cfg board) (opened_ram p cfg board ram)
  pub second :
      SetsLine p g
        (tree_at cfg board)
        n
        (length xs)
        (with_revision p g (placed_board p cfg board) (opened_ram p cfg board ram))

-- The byte behind the command line's NUL, once the revision is written.
abbrev pub behind : Platform → Config → Board → Globals → List ℕ → View → ℕ
behind p cfg board g xs ram =
    with_revision p g (placed_board p cfg board) (opened_ram p cfg board ram)
      (g.cmdline + length xs + 1)

module _ (p : Platform) (cfg : Config) (board : Board) (g : Globals) (n : ℕ) (xs : List ℕ)
    (ram : View) (edit : CanEdit p cfg board g n xs ram) where
  abbrev pub edited : View
  edited =
      fixed p cfg board g n xs (opened_ram p cfg board ram) edit.given edit.root edit.chosen
        edit.text edit.enough

  pub edits-Silent : Silent p cfg board Fixup.fixup_common g (opened_ram p cfg board ram) edited
  edits-Silent =
      runs p cfg board g n xs (opened_ram p cfg board ram) edit.given edit.root edit.chosen
        edit.text edit.enough

  pub StartsFixed-StartsEdited :
      (out : List ℕ) (m : Machine) (r : Run Jump)
      → StartsFixed p cfg board edited out m r
      → StartsEdited p cfg board g xs
          (behind p cfg board g xs ram)
          (opened_ram p cfg board ram)
          out
          m
          r
  StartsFixed-StartsEdited out m r started = record {
    after = started.after;
    returns = started.returns;
    built = edited;
    packed = started.packed;
    says =
        says p cfg board g n xs (opened_ram p cfg board ram) edit.given edit.root edit.chosen
          edit.text edit.enough edit.first edit.second;
    line = started.line;
  }

module _ (p : Platform) (cfg : Config) (board : Board) (can : CanBoot p cfg board) where
  -- On a board that has a tree, the common fixup and a command line, with fuel of more than 30 and
  -- for the version and the board's name, which are printable, an appended kernel if the board
  -- names none, and an address of the build for the tree, if there is one, that is not inside it
  -- (CanBoot); where match_board, from the RAM given, prints its text and returns the board and
  -- leaves the RAM as it was; and where (CanEdit), in the tree that fdt_open_into leaves, the root
  -- is at offset 0 and, once the revision is written, /chosen is there and the command line is a
  -- string within the fuel, and the two calls of libfdt set their properties and return 0: main
  -- prints its messages in order and starts the kernel with r0 0, r1 0xffffffff and in r2 the
  -- address of the tree, that of the build if it names one, and with a RAM that is what fdt_pack
  -- leaves of a tree that says the revision's low byte as hw-revision, a big-endian word, and as
  -- bootargs the command line with its NUL and the byte behind it, and of every other name what the
  -- tree says that fdt_open_into leaves. What fdt_open_into and fdt_pack do to a tree is not said.
  pub main-StartsEdited :
      (match_board : ℕ → ℕ → Cmd (Board × Globals)) (machid tags n : ℕ) (g : Globals)
      (xs out : List ℕ) (m : Machine)
      → ((m' : Machine)
          → m'.ram ≡ m.ram
          → Gives p.serial.wire out (board, g) m' (match_board machid tags m'))
      → board.dtb ≢ 0
      → board.fixup_dtb ≡ some Fixup.fixup_common
      → (edit : CanEdit p cfg board g n xs m.ram)
      → StartsEdited p cfg board g xs
          (behind p cfg board g xs m.ram)
          (opened_ram p cfg board m.ram)
          (main_text p cfg board out)
          m
          (main p cfg match_board machid tags m)
  main-StartsEdited match_board machid tags n g xs out m gives there has edit =
      StartsFixed-StartsEdited p cfg board g n xs m.ram edit _ m _ (
        main-StartsFixed p cfg board can match_board machid tags g out Fixup.fixup_common
          (edited p cfg board g n xs m.ram edit) m gives there has
          (edits-Silent p cfg board g n xs m.ram edit))
