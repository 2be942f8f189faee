-- ===== src/Matcher.antt =====
-- main.c: from the matched board to the jump into the kernel.
pub mod Start
pub mod Boot
pub mod Dreamplug
pub mod Fixed
pub mod Says
pub mod Loader
pub mod Bcm63xx
pub mod Exynos
pub mod Generic
pub mod Raumfeld
use pxa_impedance_matcher.Base.{ℕ, Bool, Option, none, some, List, ◌==◌, if◌then◌else◌, codes}
use pxa_impedance_matcher.Ram.{memcpy}
use pxa_impedance_matcher.Machine.{
  Machine, Run, undefined, Cmd, pure, ◌>>=◌, ◌>>◌, get_ram, set_ram,
}
use pxa_impedance_matcher.Boards.Shared.{Fixup, Board, Globals, Platform, say}
use pxa_impedance_matcher.Boards.Raumfeld.Fixups.{run_fixup}

-- The build: whether a kernel is appended (APPEND_KERNEL), the address that a tree is moved to
-- (RELOCATE_DTB), and the text of version.h.
pub record Config : Type 0 where
  pub append_kernel : Bool
  pub relocate_dtb : Option ℕ
  pub version : List ℕ

-- `start_kernel(r0, r1, r2)` at an address.
pub record Jump : Type 0 where
  pub entry : ℕ
  pub r0 : ℕ
  pub r1 : ℕ
  pub r2 : ℕ

module _ (p : Platform) (cfg : Config) where
  unfoldable pub banner : Cmd (Unit {0})
  banner =
      say p (codes "++ Impedance Matcher ")
      >> (say p cfg.version >> say p (codes " (3rd stage loader) ++\n\n"))

  unfoldable pub report : Board → Cmd (Unit {0})
  report board =
      say p (codes "Detected board: ")
      >> (say p (elim board.compatible [ none ↦ codes "Not given." | some compat ↦ compat ])
          >> say p (codes "\n"))

  -- Where the kernel starts. With neither an appended kernel nor one that the board names, the
  -- variable is not set.
  unfoldable pub kernel_entry : Board → Cmd ℕ
  kernel_entry board =
      if board.kernel == 0
      then (if cfg.append_kernel then pure p.zimage_start else (λ _. undefined))
      else pure board.kernel

  -- The tree that the kernel is given, and the board that points at it.
  unfoldable pub place_dtb : ℕ → Board → Cmd (ℕ × Board)
  place_dtb tags board = if board.dtb == 0 then pure (tags, board) else elim cfg.relocate_dtb [
    | none ↦ pure (board.dtb, board)
    | some dest ↦ (do
      ram ← get_ram
      set_ram (memcpy ram dest board.dtb board.dtb_size)
      pure (dest, record board { dtb = dest }))
  ]

  -- The fixup between fdt_open_into and fdt_pack, whose results are not looked at.
  unfoldable pub fix_tree : Fixup → Globals → Board → Cmd (Unit {0})
  fix_tree fixup g board = do
    ram ← get_ram
    let (opened, _) = p.fdt.open_into ram board.dtb board.dtb 0x100000
    set_ram opened
    run_fixup p fixup g board
    ram' ← get_ram
    let (packed, _) = p.fdt.pack ram' board.dtb
    set_ram packed

  unfoldable pub apply_fixup : Globals → Board → Cmd (Unit {0})
  unfolding fix_tree
  apply_fixup g board = elim board.fixup_dtb [
    | none ↦ pure tt
    | some fixup ↦ fix_tree fixup g board
  ]

  -- `match_board` is that of the board file that the loader is built with.
  unfoldable pub main : (ℕ → ℕ → Cmd (Board × Globals)) → ℕ → ℕ → Cmd Jump
  unfolding banner report kernel_entry place_dtb apply_fixup
  main match_board machid tags = do
    banner
    (board, g) ← match_board machid tags
    report board
    entry ← kernel_entry board
    (dtb, board') ← place_dtb tags board
    apply_fixup g board'
    say p (codes "Booting into Linux kernel ...\n")
    pure (record { entry = entry; r0 = 0; r1 = 0xffffffff; r2 = dtb })
