-- ===== src/Boards/Bcm63xx.antt =====
-- board-bcm63xx.c: the chip's identifier selects the board.
pub mod Match
use pxa_impedance_matcher.Base.{
  ℕ, Option, none, some, List, [], ◌∷◌, ◌==◌, if◌then◌else◌, codes, shr,
}
use pxa_impedance_matcher.Machine.{Machine, Run, undefined, Cmd, pure, ◌>>=◌, ◌>>◌, readl, panic}
use pxa_impedance_matcher.Print.{printhex}
use pxa_impedance_matcher.Boards.Shared.{Board, Platform, say, finish_match}

pub record BcmBoard : Type 0 where
  pub chip_id : ℕ
  pub compatible : Option (List ℕ)

unfoldable pub boards : List BcmBoard
boards =
    record { chip_id = 0x63138; compatible = some (codes "brcm,bcm63138") }
    ∷ record { chip_id = 0x63148; compatible = some (codes "brcm,bcm63148") }
    ∷ record { chip_id = 0; compatible = none }
    ∷ []

-- The loop to the entry with the identifier or to the sentinel; `none` past the table's end.
unfoldable pub find_board : List BcmBoard → ℕ → Option BcmBoard
find_board [] chip_id = none
find_board (b ∷ bs) chip_id =
    let rest = find_board bs chip_id in
    if b.chip_id == 0 then some b else (if b.chip_id == chip_id then some b else rest)

abbrev pub int_revid_reg : ℕ
int_revid_reg = 0xfffe8000

module _ (p : Platform) where
  unfoldable pub get_chip_id : Cmd ℕ
  get_chip_id = do val ← readl p.dev int_revid_reg; pure (shr val 12)

  select : Option BcmBoard → Cmd Board
  select none = λ _. undefined
  select (some b) = elim b.compatible [
    | none ↦ (do say p (codes "ERROR MATCHING BOARD!\n"); panic)
    | some compat ↦ finish_match p compat none panic
  ]

  unfoldable pub match_board : Cmd Board
  unfolding get_chip_id select
  match_board = do
    chip_id ← get_chip_id
    say p (codes "Found a Broadcom BCM")
    printhex p.serial chip_id
    say p (codes " chip\n")
    select (find_board boards chip_id)
