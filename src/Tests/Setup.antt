-- ===== src/Tests/Setup.antt =====
-- A board to test on: registers that are always ready, an 8250 UART, and one device tree.
use pxa_impedance_matcher.Base.{
  ℕ, ◌+◌, ◌-◌, ◌<◌, refl, inl, inr, List, [], ◌∷◌, arith, ltb, ◌==◌, if◌then◌else◌, Bool-cases,
  codes, All, View, lit, IsBytes,
}
use pxa_impedance_matcher.Base.Int.{pos, negsuc}
use pxa_impedance_matcher.Machine.{Event, Device, Machine}
use pxa_impedance_matcher.Uart.{Serial}
use pxa_impedance_matcher.Uart.Sends.{Ready, serial_8250}
use pxa_impedance_matcher.Endian.{load32, fdt32_to_cpu}
use pxa_impedance_matcher.Fdt.Header.{header_magic, header_totalsize}
use pxa_impedance_matcher.Fdt.{Fdt, missing}
use pxa_impedance_matcher.Dtbs.{Dtb, next_dtb}
use pxa_impedance_matcher.Dtbs.FindDtb.{dtb, link, end}
use pxa_impedance_matcher.Boards.Shared.{Platform}
use pxa_impedance_matcher.Boards.Shared.Matched.{HasTrees}
use pxa_impedance_matcher.Boards.Raumfeld.Led.Wait.{Elapses}
use pxa_impedance_matcher.Boards.Raumfeld.Led.Blink.{IsApart}
use pxa_impedance_matcher.Tests.Addresses.{lit-IsBytes}

-- A BCM63138, an Exynos 4412 and a timer that has reached 500000; every other register reads 0x20,
-- so each transmitter is empty.
abbrev pub board_device : Device
board_device h a =
    if a == 0xfffe8000
    then 0x63138000
    else (if a == 0x10000000 then 0xe4412000 else (if a == 0x40A00010 then 500000 else 0x20))

abbrev pub uart : ℕ
uart = 0x40100000

pub always-Ready : (h : List Event) → Ready board_device (uart + 0x14) 0x20 1 h
unfolding Ready
always-Ready h = inl refl

pub always_xfered : (h : List Event) → Ready board_device (uart + 0x10) 0x20 1 h
unfolding Ready
always_xfered h = inl refl

unfoldable pub line : Serial
unfolding serial_8250
line = serial_8250 board_device uart 1 always-Ready

-- A library whose trees have nothing that can be found or changed.
abbrev pub headers_only : Fdt
headers_only = record {
  path_offset = λ ram d path. pos 8;
  getprop = λ ram d off name. missing (negsuc 0);
  setprop = λ ram d off name v str size. (ram, pos 0);
  add_subnode = λ ram d off name. (ram, pos 4);
  open_into = λ ram d buf size. (ram, pos 0);
  pack = λ ram d. (ram, pos 0);
}

-- A tree of 64 bytes that names a board.
abbrev pub tree : List ℕ → List ℕ
tree name = 0xd0 ∷ 0x0d ∷ 0xfe ∷ 0xed ∷ 0 ∷ 0 ∷ 0 ∷ 64 ∷ name

abbrev pub trees_at : ℕ
trees_at = 0x1000

abbrev pub tree_ram : List ℕ → View
tree_ram name a = if ltb a trees_at then 0 else lit (tree name) (a - trees_at)

unfoldable pub platform : Platform
unfolding line
platform = record {
  dev = board_device;
  serial = line;
  fdt = headers_only;
  zimage_start = 0x8000;
  dtbs_start = trees_at;
  behind_okay = λ i. b'!';
  fuel = 100;
}

abbrev pub trees : List Dtb
trees = dtb trees_at 64 ∷ []

pub tree_ram-IsBytes : (name : List ℕ) → All (λ x. x < 256) name → IsBytes (tree_ram name)
tree_ram-IsBytes name h i = elim (Bool-cases (ltb i trees_at)) [
  | inl below ↦ rw below (omega arith)
  | inr above ↦ rw above (
      lit-IsBytes (tree name)
        (
          omega arith,
          (
            omega arith,
            (
              omega arith,
              (omega arith, (omega arith, (omega arith, (omega arith, (omega arith, h))))),
            ),
          ),
        )
        (i - trees_at))
]

abbrev pub bcm_name : List ℕ
bcm_name = codes "brcm,bcm63138"

abbrev pub exynos_name : List ℕ
exynos_name = codes "samsung,trats2"

abbrev pub dreamplug_name : List ℕ
dreamplug_name = codes "globalscale,dreamplug"

abbrev pub controller_name : List ℕ
controller_name = codes "raumfeld,raumfeld-controller-pxa303"

abbrev pub machine_with : List ℕ → Machine
machine_with name = record { ram = tree_ram name; history = [] }

pub bcm-HasTrees : HasTrees platform (tree_ram bcm_name) bcm_name trees
unfolding platform next_dtb header_magic header_totalsize fdt32_to_cpu load32
bcm-HasTrees = record {
  bytes = tree_ram-IsBytes bcm_name (omega arith);
  chain = link refl (end (λ e. omega arith));
  fit = omega arith;
  not_null = omega arith;
  chars = omega arith;
  fuel_text = omega arith;
  fuel_trees = omega arith;
}

pub exynos-HasTrees : HasTrees platform (tree_ram exynos_name) exynos_name trees
unfolding platform next_dtb header_magic header_totalsize fdt32_to_cpu load32
exynos-HasTrees = record {
  bytes = tree_ram-IsBytes exynos_name (omega arith);
  chain = link refl (end (λ e. omega arith));
  fit = omega arith;
  not_null = omega arith;
  chars = omega arith;
  fuel_text = omega arith;
  fuel_trees = omega arith;
}

pub dreamplug-HasTrees : HasTrees platform (tree_ram dreamplug_name) dreamplug_name trees
unfolding platform next_dtb header_magic header_totalsize fdt32_to_cpu load32
dreamplug-HasTrees = record {
  bytes = tree_ram-IsBytes dreamplug_name (omega arith);
  chain = link refl (end (λ e. omega arith));
  fit = omega arith;
  not_null = omega arith;
  chars = omega arith;
  fuel_text = omega arith;
  fuel_trees = omega arith;
}

pub controller-HasTrees : HasTrees platform (tree_ram controller_name) controller_name trees
unfolding platform next_dtb header_magic header_totalsize fdt32_to_cpu load32
controller-HasTrees = record {
  bytes = tree_ram-IsBytes controller_name (omega arith);
  chain = link refl (end (λ e. omega arith));
  fit = omega arith;
  not_null = omega arith;
  chars = omega arith;
  fuel_text = omega arith;
  fuel_trees = omega arith;
}

pub timer-Elapses : (h : List Event) → Elapses board_device 500000 100 h
unfolding Elapses
timer-Elapses h = inl refl

pub line-IsApart : IsApart line
unfolding line
line-IsApart = omega arith
