-- ===== src/Matcher/Boot.antt =====
-- main of main.c: what the kernel is started with.
use pxa_impedance_matcher.Base.{
  ℕ, ◌<◌, ◌≡◌, refl, sym, ap, ◌∙◌, subst, inl, inr, false, Option, none, some, List, ◌++◌,
  append_assoc, arith, ◌==◌, Bool-cases, ==→eq, ==→ne, codes, length, View, IsChars,
}
use pxa_impedance_matcher.Ram.{memcpy}
use pxa_impedance_matcher.Ram.Copy.{memcpy-Copied}
use pxa_impedance_matcher.Machine.{Machine, Run, ok, Cmd}
use pxa_impedance_matcher.Machine.Prints.{Prints, Prints-seq, Gives}
use pxa_impedance_matcher.Print.Output.{echo_all}
use pxa_impedance_matcher.Boards.Shared.{Board, Globals, Platform, say}
use pxa_impedance_matcher.Boards.Shared.Matched.{say-Prints}
use pxa_impedance_matcher.Matcher.{
  Config, banner, report, kernel_entry, place_dtb, apply_fixup, main,
}
use pxa_impedance_matcher.Matcher.Start.{
  Placed, passed_on, in_place, moved, shown_name, entry_of, CanBoot, banner_text, main_text, Boots,
}

module _ (p : Platform) (cfg : Config) where
  pub banner-Prints :
      30 < p.fuel
      → IsChars cfg.version
      → length cfg.version < p.fuel
      → (m : Machine) → Prints p.serial.wire (banner_text p cfg) m (banner p cfg m)
  unfolding banner
  banner-Prints fuel chars short m =
      Prints-seq (say p (codes "++ Impedance Matcher ")) _
        (say-Prints p (codes "++ Impedance Matcher ") (omega arith) (omega arith) m)
        λ m1 _.
          Prints-seq (say p cfg.version) (say p (codes " (3rd stage loader) ++\n\n"))
            (say-Prints p cfg.version chars short m1)
            λ m2 _. say-Prints p (codes " (3rd stage loader) ++\n\n") (omega arith) (omega arith) m2

  module _ (board : Board) (can : CanBoot p cfg board) where
    pub report-Prints :
        (m : Machine)
        → Prints p.serial.wire
            (echo_all p.serial (codes "Detected board: ")
              ++ (echo_all p.serial (shown_name board) ++ echo_all p.serial (codes "\n")))
            m
            (report p cfg board m)
    unfolding report
    report-Prints m =
        Prints-seq (say p (codes "Detected board: ")) _
          (say-Prints p (codes "Detected board: ") (omega arith) (omega (arith, can.fuel)) m)
          λ m1 _.
            Prints-seq (say p (shown_name board)) (say p (codes "\n"))
              (say-Prints p (shown_name board) can.name_chars can.name_fuel m1)
              λ m2 _. say-Prints p (codes "\n") (omega arith) (omega (arith, can.fuel)) m2

    pub kernel_entry_lem : (m : Machine) → kernel_entry p cfg board m ≡ ok (entry_of p board) m
    unfolding kernel_entry
    kernel_entry_lem m = elim (Bool-cases (board.kernel == 0)) [
      | inl null ↦ rw (null, can.has_kernel (==→eq board.kernel 0 null))
      | inr set ↦ rw set
    ]

    -- The tree is placed, and nothing else of the board or the machine changes but the RAM.
    record Places (tags : ℕ) (m : Machine) (r : Run (ℕ × Board)) : Type 0 where
      dtb : ℕ
      out : View
      placed_board : Board
      returns : r ≡ ok (dtb, placed_board) (record m { ram = out })
      placed : Placed cfg tags board m.ram dtb out
      same_fixup : placed_board.fixup_dtb ≡ board.fixup_dtb

    place_dtb-Places : (tags : ℕ) (m : Machine) → Places tags m (place_dtb p cfg tags board m)
    unfolding place_dtb
    place_dtb-Places tags m = elim (Bool-cases (board.dtb == 0)) [
      | inl null ↦ record {
        dtb = tags;
        out = m.ram;
        placed_board = board;
        returns = rw null;
        placed = passed_on (==→eq board.dtb 0 null);
        same_fixup = refl;
      }
      | inr set ↦ by_build cfg.relocate_dtb refl set
    ]
      where
        by_build :
            (o : Option ℕ)
            → cfg.relocate_dtb ≡ o
            → (board.dtb == 0) ≡ false
            → Places tags m (place_dtb p cfg tags board m)
        by_build none e set = record {
          dtb = board.dtb;
          out = m.ram;
          placed_board = board;
          returns = rw (set, e);
          placed = in_place (==→ne board.dtb 0 set) e;
          same_fixup = refl;
        }
        by_build (some dest) e set = record {
          dtb = dest;
          out = memcpy m.ram dest board.dtb board.dtb_size;
          placed_board = record board { dtb = dest };
          returns = rw (set, e);
          placed =
              moved (==→ne board.dtb 0 set) e
                (memcpy-Copied m.ram dest board.dtb board.dtb_size (can.apart dest e));
          same_fixup = refl;
        }

    apply_fixup-none :
        (g : Globals) (b : Board) (m : Machine)
        → b.fixup_dtb ≡ none
        → apply_fixup p cfg g b m ≡ ok tt m
    unfolding apply_fixup
    apply_fixup-none g b m no_fixup = rw no_fixup

    -- The parts of main, one after another.
    main-parts :
        (match_board : ℕ → ℕ → Cmd (Board × Globals)) (machid tags : ℕ) (g : Globals)
        (one two three four : List ℕ) (m : Machine)
        (b : Prints p.serial.wire one m (banner p cfg m))
        (q : Gives p.serial.wire two (board, g) b.after (match_board machid tags b.after))
        (r : Prints p.serial.wire three q.after (report p cfg board q.after))
        (w : Places tags r.after (place_dtb p cfg tags board r.after))
        (boot : Prints p.serial.wire four
          (record r.after { ram = w.out })
          (say p (codes "Booting into Linux kernel ...\n") (record r.after { ram = w.out })))
        → board.fixup_dtb ≡ none
        → Boots p cfg tags board
            (one ++ (two ++ (three ++ four)))
            m
            (main p cfg match_board machid tags m)
    unfolding main
    main-parts match_board machid tags g one two three four m b q r w boot no_fixup = record {
      dtb = w.dtb;
      after = boot.after;
      returns = rw (
        b.returns,
        q.returns,
        r.returns,
        kernel_entry_lem r.after,
        w.returns,
        apply_fixup-none g w.placed_board (record r.after { ram = w.out })
            (w.same_fixup ∙ no_fixup),
        boot.returns,
      );
      placed =
          subst (λ out. Placed cfg tags board m.ram w.dtb out) (sym boot.same_ram)
            (subst (λ ram. Placed cfg tags board ram w.dtb w.out)
              (r.same_ram ∙ q.same_ram ∙ b.same_ram) w.placed);
      line =
          boot.line
          ∙ ap (λ l. l ++ four) r.line
          ∙ ap (λ l. (l ++ three) ++ four) q.line
          ∙ ap (λ l. ((l ++ two) ++ three) ++ four) b.line
          ∙ simp append_assoc;
    }

    -- From the machine that the first message leaves.
    pub main-Boots-banner :
        (match_board : ℕ → ℕ → Cmd (Board × Globals)) (machid tags : ℕ) (g : Globals) (out : List ℕ)
        (m : Machine) (b : Prints p.serial.wire (banner_text p cfg) m (banner p cfg m))
        → Gives p.serial.wire out (board, g) b.after (match_board machid tags b.after)
        → board.fixup_dtb ≡ none
        → Boots p cfg tags board
            (main_text p cfg board out)
            m
            (main p cfg match_board machid tags m)
    main-Boots-banner match_board machid tags g out m b q no_fixup =
        let r = report-Prints q.after in
        let w = place_dtb-Places tags r.after in
        main-parts match_board machid tags g _ out _ _ m b q r w
          (say-Prints p (codes "Booting into Linux kernel ...\n") (omega arith)
            (omega (arith, can.fuel)) (record r.after { ram = w.out }))
          no_fixup

    -- For a board that needs no fixup, whose kernel's address is known and whose text fits the
    -- fuel (CanBoot), and that match_board returns with the RAM as it was, main returns from every
    -- step, prints its messages in order and starts the kernel with 0, ~0 and the tree: the
    -- caller's own if the board has none, and the board's otherwise, copied whole to the address
    -- of the build if it names one. The copy is all that changes in the RAM.
    pub main-Boots :
        (match_board : ℕ → ℕ → Cmd (Board × Globals)) (machid tags : ℕ) (g : Globals) (out : List ℕ)
        (m : Machine)
        → ((m' : Machine)
            → m'.ram ≡ m.ram
            → Gives p.serial.wire out (board, g) m' (match_board machid tags m'))
        → board.fixup_dtb ≡ none
        → Boots p cfg tags board
            (main_text p cfg board out)
            m
            (main p cfg match_board machid tags m)
    main-Boots match_board machid tags g out m given no_fixup =
        let b = banner-Prints can.fuel can.version_chars can.version_fuel m in
        main-Boots-banner match_board machid tags g out m b (given b.after b.same_ram) no_fixup
