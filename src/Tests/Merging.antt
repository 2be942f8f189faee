-- ===== src/Tests/Merging.antt =====
-- libfdt/atags_to_fdt.c on one memory tag and on two short command lines.
use pxa_impedance_matcher.Fdt.{Fdt}
use pxa_impedance_matcher.Fdt.Errors.{notfound}
use pxa_impedance_matcher.Fdt.Contract.{OffsetOr, ZeroOr}
use pxa_impedance_matcher.AtagsToFdt.Errors.{Returns, setter_errors, setters-ZeroOr}
use pxa_impedance_matcher.Base.{ℕ, ◌≡◌, refl, inl, inr, codes, List, [], ◌∷◌, arith, View, lit}
use pxa_impedance_matcher.Machine.{Machine, ok, undefined}
use pxa_impedance_matcher.Fdt.{Fdt, value}
use pxa_impedance_matcher.Base.Int.{negsuc}
use pxa_impedance_matcher.Atags.Struct.{member, tag_mem32}
use pxa_impedance_matcher.Endian.{load32, fdt32_to_cpu}
use pxa_impedance_matcher.AtagsToFdt.Access.{setprop, setprop_cell, get_cell_size}
use pxa_impedance_matcher.AtagsToFdt.{Banks, mem_tag, fill_cmdline}
use pxa_impedance_matcher.AtagsToFdt.Memory.{Banked, mem_tag-Banked, mem_tag-overrun}
use pxa_impedance_matcher.AtagsToFdt.CommandLine.{KeepsOthers, fill_cmdline-KeepsOthers}
use pxa_impedance_matcher.Tests.Setup.{headers_only}

-- A memory tag of 0x10000 bytes at 0xa0000000, and a property with the number 2.
abbrev mem_bytes : List ℕ
mem_bytes =
    4 ∷ 0 ∷ 0 ∷ 0 ∷ 2 ∷ 0 ∷ 0x41 ∷ 0x54 ∷ 0 ∷ 0 ∷ 1 ∷ 0 ∷ 0 ∷ 0 ∷ 0 ∷ 0xa0 ∷ 0 ∷ 0 ∷ 0 ∷ 2 ∷ []

abbrev machine : Machine
machine = record { ram = lit mem_bytes; history = [] }

abbrev one_bank : Banks
one_bank = record { memcount = 2; memsize = 1 }

abbrev many_banks : Banks
many_banks = record { memcount = 16; memsize = 2 }

-- A library whose trees have the property.
abbrev wide_cells : Fdt
wide_cells = record headers_only { getprop = λ ram d off name. value 16 4 }

one_cell : get_cell_size headers_only 20 0x1000 machine ≡ ok 1 machine
unfolding get_cell_size
one_cell = refl

two_cells : get_cell_size wide_cells 20 0x1000 machine ≡ ok 2 machine
unfolding get_cell_size load32 fdt32_to_cpu
two_cells = refl

mem_tag-Banked_example :
    Banked 0x2000 machine (mem_tag headers_only 20 0x1000 0x2000 0 one_bank machine)
mem_tag-Banked_example =
    mem_tag-Banked headers_only 20 0x2000 0x1000 0 1 one_bank machine one_cell (omega arith)
      (omega arith) refl

has_size : member machine.ram 0 tag_mem32 "size" ≡ 0x10000
unfolding load32
has_size = refl

mem_tag-overrun_example : mem_tag wide_cells 20 0x1000 0x2000 0 many_banks machine ≡ undefined
mem_tag-overrun_example =
    mem_tag-overrun wide_cells 20 0x2000 0x1000 0 2 many_banks machine two_cells refl (omega arith)
      (omega arith) (λ e. omega (arith, has_size, e))

-- "a" in the tree, and "b" in the tag.
abbrev texts : Machine
texts = record { ram = lit (97 ∷ 0 ∷ 98 ∷ []); history = [] }

fill_cmdline-KeepsOthers_example :
    (ram : View) × (fill_cmdline headers_only 20 0x100 (value 0 2) 2 texts
      ≡ ok tt (record texts { ram = ram }))
    × KeepsOthers 0x100 texts.ram ram
fill_cmdline-KeepsOthers_example =
    fill_cmdline-KeepsOthers headers_only 20 0x100 (value 0 2) 2 (98 ∷ []) texts (omega arith)
      (λ e. omega arith) (refl, omega arith, refl) (omega arith) (inl (omega arith))

-- A library with no node, where each is added at 4 and set.
abbrev empty : Fdt
empty = record headers_only { path_offset = λ ram d path. negsuc 0 }

setters-ZeroOr_example :
    Returns (ZeroOr setter_errors) (
      setprop empty 9 0x1000
        (codes "/memory")
        (codes "reg")
        0x2000
        8
        (record { ram = λ a. 0; history = [] }))
    × Returns (ZeroOr setter_errors) (
        setprop_cell empty 9 0x1000
          (codes "/memory")
          (codes "reg")
          7
          (record { ram = λ a. 0; history = [] }))
setters-ZeroOr_example =
    setters-ZeroOr empty 9 0x1000 (codes "/memory") (codes "reg") 0x2000 8 7
      (record { ram = λ a. 0; history = [] }) (OffsetOr.failed notfound (inr (inl refl)) refl)
      (OffsetOr.offset 4 refl) (λ ram v n a len. ZeroOr.success refl)
