-- ===== src/Matcher/Start.antt =====
-- What main of main.c starts the kernel with, and what it prints.
use pxa_impedance_matcher.Base.{
  ℕ, ◌+◌, ◌≤◌, ◌<◌, ◌≡◌, ◌≢◌, ◌⊎◌, true, none, some, List, ◌++◌, ◌==◌, if◌then◌else◌, codes, length,
  View, IsChars,
}
use pxa_impedance_matcher.Ram.Copy.{Copied}
use pxa_impedance_matcher.Machine.{Machine, Run, ok}
use pxa_impedance_matcher.Print.Output.{echo_all}
use pxa_impedance_matcher.Boards.Shared.{Board, Platform}
use pxa_impedance_matcher.Matcher.{Config, Jump}

-- The tree that is passed on: the caller's tags if the board has none, the board's where it stands,
-- or the board's moved to the address of the build.
pub data Placed (cfg : Config) (tags : ℕ) (board : Board) (ram : View) : ℕ → View → Type 0 where
  passed_on : board.dtb ≡ 0 → Placed cfg tags board ram tags ram
  in_place : board.dtb ≢ 0 → cfg.relocate_dtb ≡ none → Placed cfg tags board ram board.dtb ram
  moved :
      {dest : ℕ} {out : View}
      → board.dtb ≢ 0
      → cfg.relocate_dtb ≡ some dest
      → Copied ram dest board.dtb board.dtb_size out
      → Placed cfg tags board ram dest out

-- The board's name as it is printed.
abbrev pub shown_name : Board → List ℕ
shown_name board = elim board.compatible [ none ↦ codes "Not given." | some compat ↦ compat ]

-- Where the kernel starts.
abbrev pub entry_of : Platform → Board → ℕ
entry_of p board = if board.kernel == 0 then p.zimage_start else board.kernel

-- What the build and the board must bring: printable texts with fuel for them, a kernel, and a place
-- to move the tree to that does not start inside it.
pub record CanBoot (p : Platform) (cfg : Config) (board : Board) : Type 0 where
  pub fuel : 30 < p.fuel
  pub version_chars : IsChars cfg.version
  pub version_fuel : length cfg.version < p.fuel
  pub name_chars : IsChars (shown_name board)
  pub name_fuel : length (shown_name board) < p.fuel
  pub has_kernel : board.kernel ≡ 0 → cfg.append_kernel ≡ true
  pub apart :
      (dest : ℕ)
      → cfg.relocate_dtb ≡ some dest
      → (dest ≤ board.dtb) ⊎ (board.dtb + board.dtb_size ≤ dest)

module _ (p : Platform) (cfg : Config) where
  -- The message that main starts with.
  abbrev pub banner_text : List ℕ
  banner_text =
      echo_all p.serial (codes "++ Impedance Matcher ")
      ++ (echo_all p.serial cfg.version ++ echo_all p.serial (codes " (3rd stage loader) ++\n\n"))

  -- What main prints around what match_board does.
  abbrev pub main_text : Board → List ℕ → List ℕ
  main_text board out =
      banner_text
      ++ (out
          ++ ((echo_all p.serial (codes "Detected board: ")
                ++ (echo_all p.serial (shown_name board) ++ echo_all p.serial (codes "\n")))
              ++ echo_all p.serial (codes "Booting into Linux kernel ...\n")))

  -- The end of main: the kernel is started with the placed tree.
  pub record Boots (tags : ℕ) (board : Board) (out : List ℕ) (m : Machine) (r : Run Jump)
      : Type 0 where
    pub dtb : ℕ
    pub after : Machine
    pub returns :
        r ≡ ok (record { entry = entry_of p board; r0 = 0; r1 = 0xffffffff; r2 = dtb }) after
    pub placed : Placed cfg tags board m.ram dtb after.ram
    pub line : p.serial.wire after.history ≡ p.serial.wire m.history ++ out
