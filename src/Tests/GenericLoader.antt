-- ===== src/Tests/GenericLoader.antt =====
-- The whole loader for the generic board.
use pxa_impedance_matcher.Base.{ℕ, refl, none, true, List, [], ◌∷◌, arith, codes, lit}
use pxa_impedance_matcher.Endian.{load32}
use pxa_impedance_matcher.Machine.{Machine}
use pxa_impedance_matcher.Hex.{is_delimiter}
use pxa_impedance_matcher.Hex.Digits.{hex_value}
use pxa_impedance_matcher.Hex.Found.{IsAddress, HasOption}
use pxa_impedance_matcher.Atags.{tag_next}
use pxa_impedance_matcher.Atags.Walk.{Tags}
use pxa_impedance_matcher.Boards.Shared.{Globals}
use pxa_impedance_matcher.Matcher.{Config, main}
use pxa_impedance_matcher.Matcher.Start.{CanBoot, Boots, main_text}
use pxa_impedance_matcher.Matcher.Generic.{
  addressed, generic_matcher, addresses_text, generic-Boots,
}
use pxa_impedance_matcher.Tests.Addresses.{lit-IsBytes}
use pxa_impedance_matcher.Tests.Setup.{platform}

-- A tag of ten words with a command line, and the tag that ends the list.
abbrev tag_bytes : List ℕ
tag_bytes = 10 ∷ 0 ∷ 0 ∷ 0 ∷ 0x09 ∷ 0 ∷ 0x41 ∷ 0x54 ∷ codes "loadaddrs=0xA000,0xb2 ro"

abbrev start : Machine
start = record { ram = lit tag_bytes; history = [] }

start-Tags : Tags (lit tag_bytes) 0 (0 ∷ [])
unfolding load32 tag_next
start-Tags = Tags.next (λ e. omega (arith, e)) (Tags.end refl)

start-HasOption : HasOption (lit tag_bytes) 8 []
start-HasOption = record {
  before = tt;
  no_end = tt;
  first = λ i lt. absurd (omega (arith, lt));
  there = omega arith;
}

kernel : IsAddress (lit tag_bytes) 18 (codes "A000") b','
unfolding is_delimiter
kernel = record {
  pre = codes "0";
  text = omega arith;
  plain = ((omega arith, refl), tt);
  hex = (refl, (refl, (refl, (refl, tt))));
  delimiter = (omega arith, refl);
  short = omega arith;
}

dtb : IsAddress (lit tag_bytes) 25 (codes "b2") b' '
unfolding is_delimiter
dtb = record {
  pre = codes "0";
  text = omega arith;
  plain = ((omega arith, refl), tt);
  hex = (refl, (refl, tt));
  delimiter = (omega arith, refl);
  short = omega arith;
}

-- A build that leaves the tree where it stands.
abbrev build : Config
build = record { append_kernel = true; relocate_dtb = none; version = codes "v1" }

abbrev no_globals : Globals
no_globals = record { system_rev = 0; cmdline = 0 }

start-CanBoot :
    CanBoot platform build (addressed (hex_value (codes "A000")) (hex_value (codes "b2")))
unfolding platform
start-CanBoot = record {
  fuel = omega arith;
  version_chars = omega arith;
  version_fuel = omega arith;
  name_chars = omega arith;
  name_fuel = omega arith;
  has_kernel = λ e. refl;
  apart = λ dest e. cc;
}

generic-Boots_example :
    Boots platform build 0
      (addressed (hex_value (codes "A000")) (hex_value (codes "b2")))
      (main_text platform build
        (addressed (hex_value (codes "A000")) (hex_value (codes "b2")))
        (addresses_text platform (hex_value (codes "A000")) (hex_value (codes "b2"))))
      start
      (main platform build (generic_matcher platform build no_globals) 3 0 start)
unfolding platform load32 kernel dtb
generic-Boots_example =
    generic-Boots platform build no_globals start 3 0 0 [] [] [] (codes "A000") (codes "b2") b' '
      start-Tags (omega arith) tt refl tt (lit-IsBytes tag_bytes (omega arith)) start-HasOption
      (omega arith) (λ named. omega (arith, named)) kernel dtb (omega arith) (omega arith)
      start-CanBoot
