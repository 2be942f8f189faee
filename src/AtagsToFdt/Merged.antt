-- ===== src/AtagsToFdt/Merged.antt =====
-- atags_to_fdt of libfdt/atags_to_fdt.c on a list of which only the memory tags are for the tree: what
-- the tree says before it is packed.
use pxa_impedance_matcher.Base.{
  ◌+◌, ◌≤◌, ℕ, ◌*◌, ◌%◌, ◌<◌, ◌≡◌, ◌≢◌, refl, ◌⊎◌, inl, inr, Bool, true, false, some, List, ◌∷◌,
  codes, take, length, All, View, eq→==, ◌==◌,
}
use pxa_impedance_matcher.Base.Int.{pos}
use pxa_impedance_matcher.Machine.{Machine, ok}
use pxa_impedance_matcher.Endian.{load32, fdt32_to_cpu}
use pxa_impedance_matcher.Fdt.{Fdt}
use pxa_impedance_matcher.Fdt.Header.{fdt_magic}
use pxa_impedance_matcher.Fdt.Contract.{bytes_of, content, SetpropContract}
use pxa_impedance_matcher.Atags.Struct.{atag_core}
use pxa_impedance_matcher.Atags.Encoded.{Tag, encode, WordsAt}
use pxa_impedance_matcher.AtagsToFdt.{Locals, is_list, atags_to_fdt}
use pxa_impedance_matcher.AtagsToFdt.Cells.{ReadsTree, OneCell}
use pxa_impedance_matcher.AtagsToFdt.Collected.{banks_of, bank_bytes}
use pxa_impedance_matcher.AtagsToFdt.Collecting.{KeepsArray}
use pxa_impedance_matcher.AtagsToFdt.Folded.{Plain}
use pxa_impedance_matcher.AtagsToFdt.Opened.{Placed, walked, fold_tags-set, reg_said}

-- The tag that a list must start with.
pub record IsCore (t : Tag) : Type 0 where
  pub kind : t.kind ≡ atag_core
  pub words : (length t.body ≡ 0) ⊎ (length t.body ≡ 3)

-- The checks of the list's start.
is_list_lem :
    (fdt : Fdt) (fuel : ℕ) (ram : View) (list : ℕ) (t : Tag) (ts : List Tag)
    → WordsAt ram list (encode (t ∷ ts))
    → IsCore t
    → ((load32 ram list == fdt32_to_cpu fdt_magic) ≡ false) × (is_list fdt fuel ram list ≡ true)
unfolding fdt32_to_cpu
is_list_lem fdt fuel ram list t ts words core = elim core.words [
  | inl short ↦ rw (words.0, short, (words.1).0, core.kind) (refl, refl)
  | inr long ↦ rw (words.0, long, (words.1).0, core.kind) (refl, refl)
]

module _ (fdt : Fdt) (fuel : ℕ) (extend : Bool) (locals : Locals) (dtb space : ℕ) where
  -- A list of tags at an aligned address starts with ATAG_CORE, has no tag for the tree but memory
  -- tags, whose words are of 32 bits and at least one of which has a size; it and the tree's buffer
  -- stand apart from the array, the list ends at 2 ^ 32 or below, and the fuel is more than the
  -- number of its tags. fdt_open_into returns 0 and leaves the bytes of the list. In the tree that
  -- it leaves, the root is at offset 0, #size-cells of the root is not there or 1, and there is a
  -- node /memory; the library finds the same nodes and properties in any RAM that has the same
  -- bytes in the tree's buffer; and in any RAM that differs in the array alone, fdt_setprop sets
  -- reg of /memory and returns 0. Then atags_to_fdt returns what fdt_pack returns, and hands it a
  -- tree in which reg of /memory is the start and the size of the first 16 of these memory tags
  -- with a size, in order, as big-endian words, and every property of another node or name says
  -- what it says in the tree that fdt_open_into leaves. What fdt_open_into and fdt_pack do to the
  -- content of a tree is not said.
  pub atags_to_fdt-Merged :
      (m : Machine) (list : ℕ) (core : Tag) (ts : List Tag) (n : ℕ)
      → let tags = core ∷ ts in
        let kept = take 16 (banks_of tags) in
        let open' = (fdt.open_into m.ram dtb dtb space).0 in
        list % 4 ≡ 0
        → IsCore core
        → All Plain tags
        → WordsAt m.ram list (encode tags)
        → Placed locals.regs dtb space list tags
        → length tags < fuel
        → (fdt.open_into m.ram dtb dtb space).1 ≡ pos 0
        → ((a : ℕ) → list ≤ a → a < list + 4 * length (encode tags) → open' a ≡ m.ram a)
        → ReadsTree fdt dtb space open'
        → fdt.path_offset open' dtb (codes "/") ≡ pos 0
        → OneCell (content fdt open' dtb (codes "/") (codes "#size-cells"))
        → fdt.path_offset open' dtb (codes "/memory") ≡ pos n
        → 0 < length (banks_of tags)
        → ((ram : View)
            → KeepsArray locals.regs open' ram
            → let call =
                fdt.setprop ram dtb (pos n) (codes "reg") ram locals.regs (8 * length kept) in
              SetpropContract fdt ram dtb
                (codes "/memory")
                (codes "reg")
                (bytes_of ram locals.regs (8 * length kept))
                call
              × (call.1 ≡ pos 0))
        → (set : View) × (atags_to_fdt fdt fuel extend locals list dtb space m
            ≡ (let (packed, ret) = fdt.pack set dtb in ok ret (record m { ram = packed })))
          × (content fdt set dtb (codes "/memory") (codes "reg") ≡ some (bank_bytes kept))
          × ((path name : List ℕ)
              → (fdt.path_offset open' dtb path ≢ pos n) ⊎ (name ≢ codes "reg")
              → content fdt set dtb path name ≡ content fdt open' dtb path name)
  unfolding atags_to_fdt
  atags_to_fdt-Merged m list core ts n aligned is_core plain words placed enough zero_result stands
        reads root cell node some_banks sets =
      let before =
        walked fdt fuel extend locals dtb space m list (core ∷ ts) zero_result stands reads root
          cell placed words plain enough in
      let (keeps, zero') = sets before.ram before.collected.keeps in
      let (no_tree, is_tags) = is_list_lem fdt fuel m.ram list core ts words is_core in
      let size = 8 * length (take 16 (banks_of (core ∷ ts))) in
      let call = fdt.setprop before.ram dtb (pos n) (codes "reg") before.ram locals.regs size in
      let (reg, others) =
        reg_said fdt fuel extend locals dtb space m list (core ∷ ts) zero_result stands reads root
          cell placed words plain enough n call.0 call.1 node keeps zero' in
      (
        call.0,
        rw (eq→== (list % 4) 0 aligned, no_tree, is_tags)
            (fold_tags-set fdt fuel extend locals dtb space m list (core ∷ ts) zero_result stands
              reads root cell placed words plain enough n node some_banks),
        reg,
        others,
      )
