-- ===== src/Tests/Trees.antt =====
-- The fixups of board-raumfeld.c and main on one device tree.
use pxa_impedance_matcher.Base.{
  ◌≡◌, refl, sym, ◌∙◌, some, [], ◌∷◌, arith, ◌==◌, if◌then◌else◌, codes, View,
}
use pxa_impedance_matcher.Base.Int.{pos}
use pxa_impedance_matcher.Endian.{store32, swab32}
use pxa_impedance_matcher.Ram.{store}
use pxa_impedance_matcher.Fdt.{big_endian, setprop_u32}
use pxa_impedance_matcher.Fdt.Contract.{
  bytes_of, content, SetpropContract, SetpropStringContract, set,
}
use pxa_impedance_matcher.Machine.{Machine, ok}
use pxa_impedance_matcher.Boards.Shared.{Fixup, Platform, Board, Globals}
use pxa_impedance_matcher.Boards.Raumfeld.Fixups.{set_string, raumfeld_fixup_dtb_common}
use pxa_impedance_matcher.Boards.Raumfeld.Fixups.Content.{common-content, set_string-overlong}
use pxa_impedance_matcher.Tests.SmallFdt.{
  fill, small_setprop, small, small-said, args_others, revision_others,
}
use pxa_impedance_matcher.Tests.Setup.{platform}

unfoldable pub loader : Platform
unfolding platform
loader = record platform { fdt = small }

abbrev pub board : Board
board = record {
  dtb = 0x1000;
  dtb_size = 128;
  kernel = 0x8000;
  compatible = some (codes "raumfeld");
  fixup_dtb = some Fixup.fixup_common;
}

-- The command line "q" at 0x3000.
abbrev pub before : Machine
before = record { ram = λ a. if a == 0x3000 then b'q' else 0; history = [] }

abbrev pub globals : Globals
globals = record { system_rev = 0x105; cmdline = 0x3000 }

-- The RAM with the revision.
abbrev pub revised : View
revised = fill before.ram 0x1020 (bytes_of (big_endian 5) 0 4)

args_kept : bytes_of revised 0x1040 (revised 0x103f) ≡ []
unfolding store
args_kept = refl

pub root_set :
    SetpropContract small before.ram 0x1000
      (codes "/")
      (codes "hw-revision")
      (bytes_of (big_endian 5) 0 4)
      (setprop_u32 small before.ram 0x1000 (pos 0) (codes "hw-revision") 5)
unfolding setprop_u32 store32 store
root_set =
    set
      (record {
        now = refl;
        others = λ path' name' differs.
            small-said revised 0x1000 path' name'
            ∙ revision_others before.ram revised 0x1000 args_kept path' name' differs
            ∙ sym (small-said before.ram 0x1000 path' name');
      })
      refl

-- The RAM with the command line too: its byte, its NUL and the byte behind it.
abbrev pub complete : View
complete = fill (store revised 0x103f 3) 0x1040 (bytes_of revised 0x3000 3)

revision_kept : bytes_of complete 0x1020 4 ≡ bytes_of revised 0x1020 4
unfolding store
revision_kept = refl

pub chosen_set :
    SetpropContract small revised 0x1000
      (codes "/chosen")
      (codes "bootargs")
      (bytes_of revised 0x3000 3)
      (small_setprop revised 0x1000 (pos 8) (codes "bootargs") revised 0x3000 3)
unfolding store
chosen_set =
    set
      (record {
        now = refl;
        others = λ path' name' differs.
            small-said complete 0x1000 path' name'
            ∙ args_others revised complete 0x1000 revision_kept path' name' differs
            ∙ sym (small-said revised 0x1000 path' name');
      })
      refl

common-content_example :
    (m' : Machine) × (raumfeld_fixup_dtb_common loader globals board before ≡ ok tt m')
    × (content small m'.ram 0x1000 (codes "/") (codes "hw-revision") ≡ some (0 ∷ 0 ∷ 0 ∷ 5 ∷ []))
    × (content small m'.ram 0x1000 (codes "/chosen") (codes "bootargs") ≡ some (b'q' ∷ 0 ∷ 0 ∷ []))
    × (content small m'.ram 0x1000 (codes "/") (codes "model")
        ≡ content small before.ram 0x1000 (codes "/") (codes "model"))
unfolding loader setprop_u32 store
common-content_example =
    common-content loader globals board before 8 (b'q' ∷ []) (codes "/") (codes "model")
      (λ e. omega arith) refl refl (refl, omega arith, refl) (omega arith) (λ e. cc) (λ e. cc)
      (root_set, refl) (chosen_set, refl)

swapped : swab32 0x12345678 ≡ 0x78563412
unfolding swab32
swapped = refl

set_string-overlong_example :
    (m' : Machine) × (set_string loader 0x1000
        (pos 8)
        (codes "bootargs")
        revised
        0x3000
        (record { ram = revised; history = [] })
      ≡ ok tt m')
    × (content small m'.ram 0x1000 (codes "/chosen") (codes "bootargs") ≡ some (b'q' ∷ 0 ∷ 0 ∷ []))
    × (¬ SetpropStringContract small revised 0x1000
        (codes "/chosen")
        (codes "bootargs")
        (b'q' ∷ [])
        (m'.ram, pos 0))
unfolding loader store
set_string-overlong_example =
    set_string-overlong loader 0x1000 (pos 8) (codes "/chosen") (codes "bootargs") (b'q' ∷ [])
      revised 0x3000 (record { ram = revised; history = [] }) (refl, omega arith, refl)
      (omega arith) chosen_set refl
