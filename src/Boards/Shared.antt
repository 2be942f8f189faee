-- ===== src/Boards/Shared.antt =====
-- board.h, and what the board files share: the messages, and the search for the device tree.
pub mod Matched
use pxa_impedance_matcher.Base.{View, ℕ, Option, some, List, ◌==◌, if◌then◌else◌, codes, lit}
use pxa_impedance_matcher.Machine.{Cmd, pure, ◌>>=◌, ◌>>◌, lift, get_ram, Device}
use pxa_impedance_matcher.Uart.{Serial}
use pxa_impedance_matcher.Print.{putstr}
use pxa_impedance_matcher.Fdt.{Fdt}
use pxa_impedance_matcher.Dtbs.{Dtb, find_dtb}

-- The functions that `fixup_dtb` may point at.
pub data Fixup : Type 0 where
  fixup_common : Fixup
  fixup_controller : Fixup

-- `struct board`. NULL is 0 for an address, and `none` for a string or a function.
pub record Board : Type 0 where
  pub dtb : ℕ
  pub dtb_size : ℕ
  pub kernel : ℕ
  pub compatible : Option (List ℕ)
  pub fixup_dtb : Option Fixup

-- The static variables of board-raumfeld.c. `cmdline` is 0 for NULL.
pub record Globals : Type 0 where
  pub system_rev : ℕ
  pub cmdline : ℕ

-- What the program is linked with: the hardware, the serial driver, libfdt, and the addresses of
-- _binary_input_zImage_start and _binary_dtbs_bin_start; and the bytes that the build places behind the
-- literal "okay" of board-raumfeld.c, one of which is read. The fuel is that of every loop to a NUL.
pub record Platform : Type 0 where
  pub dev : Device
  pub serial : Serial
  pub fdt : Fdt
  pub zimage_start : ℕ
  pub dtbs_start : ℕ
  pub behind_okay : View
  pub fuel : ℕ

module _ (p : Platform) where
  -- putstr of a literal.
  unfoldable pub say : List ℕ → Cmd (Unit {0})
  say xs = putstr p.serial p.fuel (lit xs) 0

  unfoldable pub search_dtb : List ℕ → Cmd Dtb
  search_dtb compat = do
    ram ← get_ram
    lift (find_dtb p.fuel p.fuel ram p.dtbs_start (lit compat) 0)

  -- The end of match_board: `board` is filled in, or its tree is missing and the board panics.
  unfoldable pub finish_match : List ℕ → Option Fixup → Cmd Board → Cmd Board
  unfolding say search_dtb
  finish_match compat fixup on_missing = do
    d ← search_dtb compat
    if d.addr == 0
        then (do say (codes "NO DTB BLOB FOUND FOR "); say compat; say (codes "\n"); on_missing)
        else pure (record {
          dtb = d.addr;
          dtb_size = d.size;
          kernel = p.zimage_start;
          compatible = some compat;
          fixup_dtb = fixup;
        })
