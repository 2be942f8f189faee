-- ===== src/Tests/Loader.antt =====
-- The search for device trees, the board files and main.
use pxa_impedance_matcher.Base.{
  ℕ, ◌-◌, ◌≡◌, refl, inl, inr, true, none, some, List, [], ◌∷◌, ◌++◌, arith, ltb, if◌then◌else◌,
  Bool-cases, codes, done, out_of_fuel, View, lit, Holds, lit-Holds, IsBytes,
}
use pxa_impedance_matcher.Fdt.Header.{header_magic, header_totalsize}
use pxa_impedance_matcher.Machine.{Machine, ok, pure}
use pxa_impedance_matcher.Machine.Prints.{Gives-pure, Stops}
use pxa_impedance_matcher.Dtbs.{Dtb, find_str, find_dtb}
use pxa_impedance_matcher.Dtbs.FindStr.{Occurs, Decides, find_str-Decides}
use pxa_impedance_matcher.Dtbs.FindDtb.{FirstNaming, find_dtb-FirstNaming, find_dtb-zero_size}
use pxa_impedance_matcher.Str.{strncmp}
use pxa_impedance_matcher.Hex.{getaddrs, gethexaddr, scan_end, hex_loop, digit, is_delimiter}
use pxa_impedance_matcher.Print.Output.{echo_all}
use pxa_impedance_matcher.Atags.{tag_next}
use pxa_impedance_matcher.Endian.{load32, fdt32_to_cpu}
use pxa_impedance_matcher.Atags.Walk.{Tags, next, end}
use pxa_impedance_matcher.Boards.Shared.{Board, Globals, Platform}
use pxa_impedance_matcher.Boards.Shared.Matched.{board_of}
use pxa_impedance_matcher.Boards.Bcm63xx
use pxa_impedance_matcher.Boards.Bcm63xx.Match.{chip_text, match_board-Stops}
use pxa_impedance_matcher.Boards.Dreamplug
use pxa_impedance_matcher.Boards.Dreamplug.Match.{match_board-dreamplug}
use pxa_impedance_matcher.Boards.Generic.Addresses.{addresses}
use pxa_impedance_matcher.Matcher.{Config, main}
use pxa_impedance_matcher.Matcher.Dreamplug.{matcher, dreamplug-Boots}
use pxa_impedance_matcher.Matcher.Start.{CanBoot, Boots, main_text}
use pxa_impedance_matcher.Matcher.Boot.{main-Boots}
use pxa_impedance_matcher.Tests.Addresses.{lit-IsBytes}
use pxa_impedance_matcher.Tests.Setup.{
  headers_only, platform, trees_at, trees, tree_ram, bcm_name, dreamplug_name, machine_with,
  bcm-HasTrees, dreamplug-HasTrees,
}

bcm_lit-Holds : Holds (lit bcm_name) 0 bcm_name
bcm_lit-Holds = lit-Holds bcm_name (omega arith)

find_str-Decides_example :
    (r : ℕ) × (find_str 20 (tree_ram bcm_name) trees_at 64 (lit bcm_name) 0 ≡ done r)
    × Decides r (Occurs (tree_ram bcm_name) trees_at 50 bcm_name)
find_str-Decides_example =
    find_str-Decides (tree_ram bcm_name) bcm-HasTrees.bytes (lit bcm_name) 0 bcm_name bcm_lit-Holds
      (omega arith) 20 trees_at 64 (omega arith) (omega arith) (omega arith)

find_dtb-FirstNaming_example :
    (r : Dtb) × (find_dtb 20 2 (tree_ram bcm_name) trees_at (lit bcm_name) 0 ≡ done r)
    × FirstNaming (tree_ram bcm_name) bcm_name trees r
unfolding platform
find_dtb-FirstNaming_example =
    find_dtb-FirstNaming (tree_ram bcm_name) bcm-HasTrees.bytes (lit bcm_name) 0 bcm_name
      bcm_lit-Holds (omega arith) 20 (omega arith) 2 trees_at trees bcm-HasTrees.chain (omega arith)
      (omega arith)

-- A header of a tree of 0 bytes.
abbrev empty_tree : View
empty_tree a = if ltb a trees_at then 0 else lit (0xd0 ∷ 0x0d ∷ 0xfe ∷ 0xed ∷ []) (a - trees_at)

empty_tree-IsBytes : IsBytes empty_tree
empty_tree-IsBytes i = elim (Bool-cases (ltb i trees_at)) [
  | inl below ↦ rw below (omega arith)
  | inr above ↦ rw above (lit-IsBytes (0xd0 ∷ 0x0d ∷ 0xfe ∷ 0xed ∷ []) (omega arith) (i - trees_at))
]

find_dtb-zero_size_example : find_dtb 20 30 empty_tree trees_at (lit bcm_name) 0 ≡ out_of_fuel
unfolding header_magic header_totalsize fdt32_to_cpu load32
find_dtb-zero_size_example =
    find_dtb-zero_size empty_tree empty_tree-IsBytes (lit bcm_name) 0 bcm_name bcm_lit-Holds
      (omega arith) 20 (omega arith) 30 trees_at refl refl refl (omega arith) (omega arith)

-- An unknown chip: the device of the setup with another identifier.
abbrev other_platform : Platform
other_platform = record {
  dev = λ h a. 0x20;
  serial = platform.serial;
  fdt = headers_only;
  zimage_start = 0x8000;
  dtbs_start = trees_at;
  behind_okay = λ i. b'!';
  fuel = 100;
}

match_board-Stops_example :
    Stops other_platform.serial.wire
      (chip_text other_platform
        (machine_with bcm_name)
        (echo_all other_platform.serial (codes "ERROR MATCHING BOARD!\n") ++ []))
      (machine_with bcm_name)
      (Bcm63xx.match_board other_platform (machine_with bcm_name))
match_board-Stops_example =
    match_board-Stops other_platform (machine_with bcm_name) refl (omega arith)

dreamplug_found :
    (d : Dtb) × (Dreamplug.match_board platform (machine_with dreamplug_name)
      ≡ ok (board_of platform dreamplug_name none d) (machine_with dreamplug_name))
    × FirstNaming (tree_ram dreamplug_name) dreamplug_name trees d
dreamplug_found =
    match_board-dreamplug platform (machine_with dreamplug_name) trees dreamplug-HasTrees

-- A tag of ten words with a command line, and the tag that ends the list.
abbrev tag_bytes : List ℕ
tag_bytes = 10 ∷ 0 ∷ 0 ∷ 0 ∷ 0x09 ∷ 0 ∷ 0x41 ∷ 0x54 ∷ codes "loadaddrs=0xA000,0xb2 ro"

abbrev with_tags : Machine
with_tags = record { ram = lit tag_bytes; history = [] }

tagged-Tags : Tags (lit tag_bytes) 0 (0 ∷ [])
unfolding load32 tag_next
tagged-Tags = next (λ e. omega arith) (end refl)

tag_addresses : addresses 100 (lit tag_bytes) (0 ∷ []) 0 0 ≡ done (0xA000, 0xb2)
unfolding addresses load32 getaddrs gethexaddr scan_end hex_loop digit is_delimiter strncmp
tag_addresses = refl

-- A build that moves the tree, and a board with a tree of 64 bytes.
abbrev build : Config
build = record { append_kernel = true; relocate_dtb = some 0x2000; version = codes "v1" }

abbrev in_place_build : Config
in_place_build = record { append_kernel = true; relocate_dtb = none; version = codes "v1" }

abbrev found_board : Board
found_board = board_of platform bcm_name none (record { addr = trees_at; size = 64 })

found_board-CanBoot : CanBoot platform build found_board
unfolding platform
found_board-CanBoot = record {
  fuel = omega arith;
  version_chars = omega arith;
  version_fuel = omega arith;
  name_chars = omega arith;
  name_fuel = omega arith;
  has_kernel = λ e. refl;
  apart = λ dest e. inr (ground arith);
}

abbrev no_globals : Globals
no_globals = record { system_rev = 0; cmdline = 0 }

main-Boots_example :
    Boots platform build 0x100 found_board
      (main_text platform build found_board [])
      (machine_with bcm_name)
      (main platform build
        (λ machid tags. pure (found_board, no_globals))
        3
        0x100
        (machine_with bcm_name))
main-Boots_example =
    main-Boots platform build found_board found_board-CanBoot
      (λ machid tags. pure (found_board, no_globals)) 3 0x100 no_globals [] (machine_with bcm_name)
      (λ m' e. Gives-pure (found_board, no_globals) m') refl

-- A dreamplug, and a build that leaves the tree where it stands.
dreamplug-CanBoot :
    (d : Dtb)
    → FirstNaming (tree_ram dreamplug_name) dreamplug_name trees d
    → CanBoot platform in_place_build (board_of platform dreamplug_name none d)
unfolding platform
dreamplug-CanBoot d first = record {
  fuel = omega arith;
  version_chars = omega arith;
  version_fuel = omega arith;
  name_chars = omega arith;
  name_fuel = omega arith;
  has_kernel = λ e. refl;
  apart = λ dest e. cc;
}

dreamplug-Boots_example :
    (d : Dtb) × FirstNaming (tree_ram dreamplug_name) dreamplug_name trees d
    × Boots platform in_place_build 0x100
        (board_of platform dreamplug_name none d)
        (main_text platform in_place_build (board_of platform dreamplug_name none d) [])
        (machine_with dreamplug_name)
        (main platform in_place_build
          (matcher platform in_place_build no_globals)
          3
          0x100
          (machine_with dreamplug_name))
dreamplug-Boots_example =
    dreamplug-Boots platform in_place_build no_globals (machine_with dreamplug_name) trees 3 0x100
      dreamplug-HasTrees dreamplug-CanBoot
