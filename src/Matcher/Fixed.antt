-- ===== src/Matcher/Fixed.antt =====
-- main.c with a board that has a fixup.
use pxa_impedance_matcher.Base.{
  ℕ, ◌≡◌, refl, ap, ◌∙◌, ◌≢◌, Option, none, some, List, ◌++◌, append_assoc, arith, codes, ne→==,
  View,
}
use pxa_impedance_matcher.Ram.{memcpy}
use pxa_impedance_matcher.Machine.{Machine, Run, ok, Cmd, pure}
use pxa_impedance_matcher.Machine.Prints.{Prints, Gives}
use pxa_impedance_matcher.Boards.Shared.{Fixup, Board, Globals, Platform, say}
use pxa_impedance_matcher.Boards.Shared.Matched.{say-Prints}
use pxa_impedance_matcher.Boards.Raumfeld.Fixups.{run_fixup}
use pxa_impedance_matcher.Matcher.{
  Config, Jump, banner, report, place_dtb, fix_tree, apply_fixup, main,
}
use pxa_impedance_matcher.Matcher.Start.{CanBoot, entry_of, banner_text, main_text}
use pxa_impedance_matcher.Matcher.Boot.{banner-Prints, report-Prints, kernel_entry_lem}

-- Where the board's tree is when it is fixed, and the RAM then.
abbrev pub tree_at : Config → Board → ℕ
tree_at cfg board = elim cfg.relocate_dtb [ none ↦ board.dtb | some dest ↦ dest ]

abbrev pub placed_ram : Config → Board → View → View
placed_ram cfg board ram = elim cfg.relocate_dtb [
  | none ↦ ram
  | some dest ↦ memcpy ram dest board.dtb board.dtb_size
]

module _ (p : Platform) (cfg : Config) (board : Board) where
  -- The board that the fixup is given.
  abbrev pub placed_board : Board
  placed_board = record board { dtb = tree_at cfg board }

  -- The RAM that the fixup is given, after fdt_open_into.
  abbrev pub opened_ram : View → View
  opened_ram ram =
      (p.fdt.open_into (placed_ram cfg board ram) (tree_at cfg board) (tree_at cfg board)
        0x100000).0

  -- The fixup of the placed board returns, prints nothing and leaves the RAM `fixed`.
  abbrev pub Silent : Fixup → Globals → View → View → Type 0
  Silent fixup g ram fixed =
      (m : Machine)
      → m.ram ≡ ram
      → run_fixup p fixup g placed_board m ≡ ok tt (record m { ram = fixed })

  place_dtb_lem :
      (tags : ℕ) (m : Machine)
      → board.dtb ≢ 0
      → place_dtb p cfg tags board m
        ≡ ok (tree_at cfg board, placed_board) (record m { ram = placed_ram cfg board m.ram })
  unfolding place_dtb
  place_dtb_lem tags m there = by_build cfg.relocate_dtb refl
    where
      by_build :
          (o : Option ℕ)
          → cfg.relocate_dtb ≡ o
          → place_dtb p cfg tags board m
            ≡ ok (tree_at cfg board, placed_board) (record m { ram = placed_ram cfg board m.ram })
      by_build none e = rw (ne→== board.dtb 0 there, e)
      by_build (some dest) e = rw (ne→== board.dtb 0 there, e)

  -- A fixup that prints nothing, between fdt_open_into and fdt_pack.
  fix_tree_lem :
      (fixup : Fixup) (g : Globals) (m : Machine) (fixed : View)
      → run_fixup p fixup g placed_board (record m {
        ram = (p.fdt.open_into m.ram (tree_at cfg board) (tree_at cfg board) 0x100000).0;
      })
        ≡ ok tt (record m { ram = fixed })
      → fix_tree p cfg fixup g placed_board m
        ≡ ok tt (record m { ram = (p.fdt.pack fixed (tree_at cfg board)).0 })
  unfolding fix_tree
  fix_tree_lem fixup g m fixed runs = rw runs

  apply_fixup_lem :
      (fixup : Fixup) (g : Globals) (m : Machine) (fixed : View)
      → board.fixup_dtb ≡ some fixup
      → run_fixup p fixup g placed_board (record m { ram = opened_ram m.ram })
        ≡ ok tt (record m { ram = fixed })
      → apply_fixup p cfg g placed_board (record m { ram = placed_ram cfg board m.ram })
        ≡ ok tt (record m { ram = (p.fdt.pack fixed (tree_at cfg board)).0 })
  unfolding apply_fixup
  apply_fixup_lem fixup g m fixed has runs =
      ap
        (λ (o : Option Fixup).
          let fix : Cmd (Unit {0}) = elim o [
            | none ↦ pure tt
            | some f ↦ fix_tree p cfg f g placed_board
          ] in
          fix (record m { ram = placed_ram cfg board m.ram }))
        has
      ∙ fix_tree_lem fixup g (record m { ram = placed_ram cfg board m.ram }) fixed runs

  -- The kernel is started with the board's tree, and the RAM is that of the packed tree.
  pub record StartsFixed (fixed : View) (out : List ℕ) (m : Machine) (r : Run Jump) : Type 0 where
    pub after : Machine
    pub returns :
        r
        ≡ ok
            (record { entry = entry_of p board; r0 = 0; r1 = 0xffffffff; r2 = tree_at cfg board })
            after
    pub packed : after.ram ≡ (p.fdt.pack fixed (tree_at cfg board)).0
    pub line : p.serial.wire after.history ≡ p.serial.wire m.history ++ out

  module _ (can : CanBoot p cfg board) where
    main-parts :
        (match_board : ℕ → ℕ → Cmd (Board × Globals)) (machid tags : ℕ) (g : Globals)
        (one two three four : List ℕ) (fixed : View) (m : Machine)
        (b : Prints p.serial.wire one m (banner p cfg m))
        (q : Gives p.serial.wire two (board, g) b.after (match_board machid tags b.after))
        (r : Prints p.serial.wire three q.after (report p cfg board q.after))
        (boot : Prints p.serial.wire four
          (record r.after { ram = (p.fdt.pack fixed (tree_at cfg board)).0 })
          (say p
            (codes "Booting into Linux kernel ...\n")
            (record r.after { ram = (p.fdt.pack fixed (tree_at cfg board)).0 })))
        → board.dtb ≢ 0
        → apply_fixup p cfg g placed_board
            (record r.after { ram = placed_ram cfg board r.after.ram })
          ≡ ok tt (record r.after { ram = (p.fdt.pack fixed (tree_at cfg board)).0 })
        → StartsFixed fixed
            (one ++ (two ++ (three ++ four)))
            m
            (main p cfg match_board machid tags m)
    unfolding main
    main-parts match_board machid tags g one two three four fixed m b q r boot there applied =
        record {
          after = boot.after;
          returns = rw (
            b.returns,
            q.returns,
            r.returns,
            kernel_entry_lem p cfg board can r.after,
            place_dtb_lem tags r.after there,
            applied,
            boot.returns,
          );
          packed = boot.same_ram;
          line =
              boot.line
              ∙ ap (λ l. l ++ four) r.line
              ∙ ap (λ l. (l ++ three) ++ four) q.line
              ∙ ap (λ l. ((l ++ two) ++ three) ++ four) b.line
              ∙ simp append_assoc;
        }

    -- From the machine that the first message leaves.
    pub main-StartsFixed-banner :
        (match_board : ℕ → ℕ → Cmd (Board × Globals)) (machid tags : ℕ) (g : Globals) (out : List ℕ)
        (fixup : Fixup) (fixed : View) (m : Machine)
        (b : Prints p.serial.wire (banner_text p cfg) m (banner p cfg m))
        → Gives p.serial.wire out (board, g) b.after (match_board machid tags b.after)
        → board.dtb ≢ 0
        → board.fixup_dtb ≡ some fixup
        → Silent fixup g (opened_ram m.ram) fixed
        → StartsFixed fixed (main_text p cfg board out) m (main p cfg match_board machid tags m)
    main-StartsFixed-banner match_board machid tags g out fixup fixed m b q there has runs =
        let r = report-Prints p cfg board can q.after in
        main-parts match_board machid tags g _ out _ _ fixed m b q r
          (say-Prints p (codes "Booting into Linux kernel ...\n") (omega arith)
            (omega (arith, can.fuel))
            (record r.after { ram = (p.fdt.pack fixed (tree_at cfg board)).0 }))
          there
          (apply_fixup_lem fixup g r.after fixed has (
            runs (record r.after { ram = opened_ram r.after.ram })
              (ap opened_ram (r.same_ram ∙ q.same_ram ∙ b.same_ram))))

    -- For a board with a tree and a fixup that prints nothing, whose kernel's address is known and
    -- whose text fits the fuel (CanBoot), and that match_board returns with the RAM as it was, main
    -- returns from every step, prints its messages in order and starts the kernel with 0, ~0 and the
    -- board's tree, at the address of the build if it names one: the tree is placed, opened, fixed
    -- and packed, in this order, and the RAM is then what fdt_pack leaves.
    pub main-StartsFixed :
        (match_board : ℕ → ℕ → Cmd (Board × Globals)) (machid tags : ℕ) (g : Globals) (out : List ℕ)
        (fixup : Fixup) (fixed : View) (m : Machine)
        → ((m' : Machine)
            → m'.ram ≡ m.ram
            → Gives p.serial.wire out (board, g) m' (match_board machid tags m'))
        → board.dtb ≢ 0
        → board.fixup_dtb ≡ some fixup
        → ((m' : Machine)
            → m'.ram ≡ opened_ram m.ram
            → run_fixup p fixup g placed_board m' ≡ ok tt (record m' { ram = fixed }))
        → StartsFixed fixed (main_text p cfg board out) m (main p cfg match_board machid tags m)
    main-StartsFixed match_board machid tags g out fixup fixed m given there has runs =
        let b = banner-Prints p cfg can.fuel can.version_chars can.version_fuel m in
        main-StartsFixed-banner match_board machid tags g out fixup fixed m b
          (given b.after b.same_ram) there has runs
