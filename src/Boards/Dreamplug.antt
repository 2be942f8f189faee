-- ===== src/Boards/Dreamplug.antt =====
-- board-dreamplug.c: one board, whatever the machine. A tree that is missing is passed on as NULL.
pub mod Match
use pxa_impedance_matcher.Base.{ℕ, none, some, List, codes}
use pxa_impedance_matcher.Machine.{Cmd, pure, ◌>>=◌}
use pxa_impedance_matcher.Boards.Shared.{Board, Platform, search_dtb}

abbrev pub compat : List ℕ
compat = codes "globalscale,dreamplug"

unfoldable pub match_board : Platform → Cmd Board
match_board p = do
  d ← search_dtb p compat
  pure (record {
    dtb = d.addr;
    dtb_size = d.size;
    kernel = p.zimage_start;
    compatible = some compat;
    fixup_dtb = none;
  })
