-- ===== src/Tests/MemoryTags.antt =====
-- libfdt/atags_to_fdt.c on a list with one memory tag that counts and one that does not.
use pxa_impedance_matcher.Base.{
  ℕ, ◌≡◌, ◌≢◌, refl, ◌⊎◌, inl, inr, true, some, List, [], ◌∷◌, arith, codes, lit, View,
}
use pxa_impedance_matcher.Base.Int.{pos}
use pxa_impedance_matcher.Ram.{store}
use pxa_impedance_matcher.Endian.{load32}
use pxa_impedance_matcher.Machine.{Machine, ok}
use pxa_impedance_matcher.Fdt.{Fdt}
use pxa_impedance_matcher.Fdt.Contract.{bytes_of, content, Sets, set}
use pxa_impedance_matcher.Atags.Struct.{atag_core, atag_mem}
use pxa_impedance_matcher.Atags.Encoded.{Tag, encode, WordsAt}
use pxa_impedance_matcher.AtagsToFdt.{Locals, atags_to_fdt}
use pxa_impedance_matcher.AtagsToFdt.Folded.{memory, passed_over}
use pxa_impedance_matcher.AtagsToFdt.Merged.{atags_to_fdt-Merged}
use pxa_impedance_matcher.Tests.OneProperty.{one_property, one-Sets, one_property-ReadsTree}

abbrev tag_bytes : List ℕ
tag_bytes =
    2 ∷ 0 ∷ 0 ∷ 0 ∷ 1 ∷ 0 ∷ 0x41 ∷ 0x54 ∷ 4 ∷ 0 ∷ 0 ∷ 0 ∷ 2 ∷ 0 ∷ 0x41 ∷ 0x54 ∷ 0 ∷ 0 ∷ 1 ∷ 0 ∷ 0
    ∷ 0 ∷ 0 ∷ 0xa0 ∷ 4 ∷ 0 ∷ 0 ∷ 0 ∷ 2 ∷ 0 ∷ 0x41 ∷ 0x54 ∷ []

abbrev machine : Machine
machine = record { ram = lit tag_bytes; history = [] }

abbrev core : Tag
core = record { kind = atag_core; body = [] }

abbrev mem_tags : List Tag
mem_tags =
    record { kind = atag_mem; body = 0x10000 ∷ 0xa0000000 ∷ [] }
    ∷ record { kind = atag_mem; body = 0 ∷ 0 ∷ [] }
    ∷ []

abbrev locals : Locals
locals = record { cmdline = 0x3000; regs = 0x2000; serial = 0x4000 }

machine_words : WordsAt machine.ram 0 (encode (core ∷ mem_tags))
unfolding load32
machine_words = (
  refl,
  (refl, (refl, (refl, (refl, (refl, (refl, (refl, (refl, (refl, (refl, (refl, tt))))))))))),
)

abbrev library : Fdt
library = one_property (codes "/memory") (codes "reg")

reg_set :
    (ram : View)
    → let call = library.setprop ram 0x1000 (pos 8) (codes "reg") ram 0x2000 8 in
      Sets library ram 0x1000 (codes "/memory") (codes "reg") (bytes_of ram 0x2000 8) call.0
unfolding store
reg_set ram =
    one-Sets (codes "/memory") (codes "reg") ram _ 0x1000 (bytes_of ram 0x2000 8) refl refl

atags_to_fdt-Merged_example :
    (set : View) × (atags_to_fdt library 20 true locals 0 0x1000 0x200 machine
      ≡ ok (pos 0) (record machine { ram = set }))
    × (content library set 0x1000 (codes "/memory") (codes "reg")
        ≡ some (0xa0 ∷ 0 ∷ 0 ∷ 0 ∷ 0 ∷ 1 ∷ 0 ∷ 0 ∷ []))
    × ((path name : List ℕ)
        → (library.path_offset machine.ram 0x1000 path ≢ pos 8) ⊎ (name ≢ codes "reg")
        → content library set 0x1000 path name ≡ content library machine.ram 0x1000 path name)
atags_to_fdt-Merged_example =
    atags_to_fdt-Merged library 20 true locals 0x1000 0x200 machine 0 core mem_tags 8 refl
      (record { kind = refl; words = inl refl })
      (
        passed_over (λ e. omega arith) (λ e. omega arith) (λ e. omega arith) (λ e. omega arith),
        (
          memory 0x10000 0xa0000000 [] refl refl (omega arith) (omega arith),
          (memory 0 0 [] refl refl (omega arith) (omega arith), tt),
        ),
      )
      machine_words
      (record {
        list_array = record { below = omega arith; apart = inl (omega arith) };
        array_tree = inr (omega arith);
      })
      (omega arith) refl (λ a above below. refl)
      (one_property-ReadsTree (codes "/memory") (codes "reg") machine.ram 0x1000) refl (inl refl)
      refl (omega arith) (λ ram keeps. (set (reg_set ram) refl, refl))
