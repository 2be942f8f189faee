-- ===== src/Boards/Raumfeld/Select.antt =====
-- How match_board of board-raumfeld.c ends on either path.
use pxa_impedance_matcher.Base.{
  ℕ, ◌<◌, ◌≡◌, refl, Option, none, some, List, [], ◌++◌, arith, codes, View,
}
use pxa_impedance_matcher.Machine.{Event, Machine}
use pxa_impedance_matcher.Machine.Prints.{Stops, Prints-Stops}
use pxa_impedance_matcher.Print.{printhex}
use pxa_impedance_matcher.Print.Output.{echo_all, emits_all, hex_text, printhex-Prints}
use pxa_impedance_matcher.Dtbs.{Dtb}
use pxa_impedance_matcher.Boards.Shared.{Globals, Platform, say}
use pxa_impedance_matcher.Boards.Shared.Matched.{
  HasTrees, Matched, say-Prints, finish_match-Matched,
}
use pxa_impedance_matcher.Boards.Raumfeld.{no_board, use_board}
use pxa_impedance_matcher.Boards.Raumfeld.Led.{led_panic}
use pxa_impedance_matcher.Boards.Raumfeld.Led.Wait.{Elapses}
use pxa_impedance_matcher.Boards.Raumfeld.Led.Blink.{IsApart, led_panic-Stops}
use pxa_impedance_matcher.Boards.Raumfeld.Table.{RaumfeldBoard}

-- The serial line has a register of its own, and the timer always runs on.
pub record CanBlink (p : Platform) : Type 0 where
  pub apart : IsApart p.serial
  pub elapses : (h : List Event) → Elapses p.dev 500000 p.fuel h
  pub fuel : 22 < p.fuel

module _ (p : Platform) (blink : CanBlink p) (rounds machid : ℕ) (g : Globals) where
  -- What is printed when no board is found.
  abbrev pub no_board_text : List ℕ
  no_board_text =
      echo_all p.serial (codes "ERROR MATCHING BOARD!\n")
      ++ (echo_all p.serial (codes "MACHID: 0x")
          ++ (emits_all p.serial (hex_text machid)
              ++ (echo_all p.serial (codes "\n")
                  ++ (echo_all p.serial (codes "SYSTEM_REV: 0x")
                      ++ (emits_all p.serial (hex_text g.system_rev)
                          ++ (echo_all p.serial (codes "\n") ++ []))))))

  no_board-Stops :
      (m : Machine) → Stops p.serial.wire no_board_text m (no_board p rounds machid g.system_rev m)
  unfolding no_board
  no_board-Stops m =
      Prints-Stops (say p (codes "ERROR MATCHING BOARD!\n")) _
        (say-Prints p (codes "ERROR MATCHING BOARD!\n") (omega arith) (omega (arith, blink.fuel)) m)
        λ m1 _.
          Prints-Stops (say p (codes "MACHID: 0x")) _
            (say-Prints p (codes "MACHID: 0x") (omega arith) (omega (arith, blink.fuel)) m1)
            λ m2 _.
              Prints-Stops (printhex p.serial machid) _ (printhex-Prints p.serial machid m2) λ m3 _.
                Prints-Stops (say p (codes "\n")) _
                  (say-Prints p (codes "\n") (omega arith) (omega (arith, blink.fuel)) m3)
                  λ m4 _.
                    Prints-Stops (say p (codes "SYSTEM_REV: 0x")) _
                      (say-Prints p (codes "SYSTEM_REV: 0x") (omega arith)
                        (omega (arith, blink.fuel)) m4)
                      λ m5 _.
                        Prints-Stops (printhex p.serial g.system_rev) _
                          (printhex-Prints p.serial g.system_rev m5)
                          λ m6 _.
                            Prints-Stops (say p (codes "\n")) (led_panic p.dev p.fuel rounds)
                              (say-Prints p (codes "\n") (omega arith) (omega (arith, blink.fuel))
                                m6)
                              λ m7 _.
                                led_panic-Stops p.dev p.serial blink.apart p.fuel blink.elapses
                                  rounds m7

  pub use_board-named :
      (b : RaumfeldBoard) (compat : List ℕ) (bs : List Dtb) (ram : View) (m : Machine)
      → b.compatible ≡ some compat
      → HasTrees p ram compat bs
      → m.ram ≡ ram
      → Matched p ram compat b.fixup_dtb bs [] [] m (use_board p rounds machid (some b) g m)
  unfolding use_board
  use_board-named b compat bs ram m known trees same = simp known (
      finish_match-Matched p compat b.fixup_dtb bs (led_panic p.dev p.fuel rounds) []
        (led_panic-Stops p.dev p.serial blink.apart p.fuel blink.elapses rounds) blink.fuel ram m
        same trees)

  -- With an entry of the table that has a name, and a chain of trees behind the loader, the rest
  -- of the Raumfeld match_board returns the first tree that names it with the entry's fixup, or
  -- says that there is none and blinks without end.
  pub use_board-Matched :
      (b : RaumfeldBoard) (compat : List ℕ) (bs : List Dtb) (m : Machine)
      → b.compatible ≡ some compat
      → HasTrees p m.ram compat bs
      → Matched p m.ram compat b.fixup_dtb bs [] [] m (use_board p rounds machid (some b) g m)
  use_board-Matched b compat bs m known trees = use_board-named b compat bs m.ram m known trees refl

  -- Without an entry, or with one that has no name (the sentinel), the rest of the Raumfeld
  -- match_board prints the machine's identifier and revision, and blinks without end.
  pub use_board-Stops :
      (b : Option RaumfeldBoard) (m : Machine)
      → ((e : RaumfeldBoard) → b ≡ some e → e.compatible ≡ none)
      → Stops p.serial.wire no_board_text m (use_board p rounds machid b g m)
  unfolding use_board
  use_board-Stops none m nameless = no_board-Stops m
  use_board-Stops (some e) m nameless = simp (nameless e refl) (no_board-Stops m)
