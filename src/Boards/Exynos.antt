-- ===== src/Boards/Exynos.antt =====
-- board-exynos.c: the product's identifier selects the board.
pub mod Match
use pxa_impedance_matcher.Base.{
  ℕ, Option, none, some, List, [], ◌∷◌, ◌==◌, if◌then◌else◌, codes, shr,
}
use pxa_impedance_matcher.Machine.{undefined, Cmd, pure, ◌>>=◌, ◌>>◌, readl, panic}
use pxa_impedance_matcher.Boards.Shared.{Board, Platform, say, finish_match}

pub record ExynosBoard : Type 0 where
  pub proid : ℕ
  pub system_rev : ℕ
  pub compatible : Option (List ℕ)

unfoldable pub exboards : List ExynosBoard
exboards =
    record { proid = 0xe4412; system_rev = 0; compatible = some (codes "samsung,trats2") }
    ∷ record { proid = 0x43210; system_rev = 0; compatible = some (codes "samsung,trats") }
    ∷ record { proid = 0; system_rev = 0; compatible = none }
    ∷ []

unfoldable pub find_board : List ExynosBoard → ℕ → Option ExynosBoard
find_board [] proid = none
find_board (b ∷ bs) proid =
    let rest = find_board bs proid in
    if b.proid == 0 then some b else (if b.proid == proid then some b else rest)

abbrev pub exynos_pro_id : ℕ
exynos_pro_id = 0x10000000

abbrev pub exynos_pro_id_shift : ℕ
exynos_pro_id_shift = 12

module _ (p : Platform) where
  unfoldable pub get_proid : Cmd ℕ
  get_proid = do val ← readl p.dev exynos_pro_id; pure (shr val exynos_pro_id_shift)

  select : Option ExynosBoard → Cmd Board
  select none = λ _. undefined
  select (some b) = elim b.compatible [
    | none ↦ (do say p (codes "ERROR MATCHING BOARD!\n"); panic)
    | some compat ↦ finish_match p compat none panic
  ]

  unfoldable pub match_board : Cmd Board
  unfolding get_proid select
  match_board = do proid ← get_proid; select (find_board exboards proid)
