-- ===== src/AtagsToFdt/Opened.antt =====
-- fold_tags: the tree that is opened, the walk over a list of which only the memory tags are for the
-- tree, and the property that is set of them.
use pxa_impedance_matcher.Base.{
  pos→==, ℕ, suc, ◌+◌, ◌*◌, ◌≤◌, ◌<◌, ◌≡◌, ◌≢◌, refl, sym, subst, ap, ◌∙◌, ◌⊎◌, inl, inr, Bool,
  some, List, [], ◌∷◌, arith, codes, take, length, All, View, u32,
}
use pxa_impedance_matcher.Base.Int.{ℤ, pos}
use pxa_impedance_matcher.Machine.{Machine, ok}
use pxa_impedance_matcher.Fdt.{Fdt}
use pxa_impedance_matcher.Fdt.Contract.{bytes_of, content, SetpropContract}
use pxa_impedance_matcher.Fdt.Cells.{setprop-Sets}
use pxa_impedance_matcher.Atags.{for_each_tag}
use pxa_impedance_matcher.Atags.Encoded.{Tag, encode, WordsAt}
use pxa_impedance_matcher.AtagsToFdt.{reg_cells, Locals, fold_tag, fold_tags}
use pxa_impedance_matcher.AtagsToFdt.Access.{get_cell_size, node_offset, with_node, setprop}
use pxa_impedance_matcher.AtagsToFdt.Cells.{ReadsTree, OneCell, get_cell_size-one}
use pxa_impedance_matcher.AtagsToFdt.Collected.{Bank, banks_of, bank_bytes}
use pxa_impedance_matcher.AtagsToFdt.Collecting.{KeepsArray, Collects}
use pxa_impedance_matcher.AtagsToFdt.Folded.{Plain, WordsAt-same}
use pxa_impedance_matcher.AtagsToFdt.Walked.{Apart, for_each_tag-Collects}

take_some : (n : ℕ) (bs : List Bank) → 0 < length bs → 0 < length (take (suc n) bs)
take_some n [] lt = absurd (omega arith)
take_some n (b ∷ bs) lt = omega arith

-- A property of a node that is there.
pub setprop-there :
    (fdt : Fdt) (fuel dtb : ℕ) (path name : List ℕ) (val size n : ℕ) (m : Machine)
    → fdt.path_offset m.ram dtb path ≡ pos n
    → setprop fdt fuel dtb path name val size m ≡ (
        let (set, ret) = fdt.setprop m.ram dtb (pos n) name m.ram val size in
        ok ret (record m { ram = set }))
unfolding setprop with_node node_offset
setprop-there fdt fuel dtb path name val size n m there = rw there refl

-- The list and the tree's buffer stand apart from the array.
pub record Placed (regs dtb space list : ℕ) (ts : List Tag) : Type 0 where
  pub list_array : Apart regs list ts
  pub array_tree : (regs + 4 * reg_cells ≤ dtb) ⊎ (dtb + space ≤ regs)

module _ (fdt : Fdt) (fuel : ℕ) (extend : Bool) (locals : Locals) (dtb space : ℕ) where
  abbrev pub opened : Machine → View
  opened m = (fdt.open_into m.ram dtb dtb space).0

  module _ (m : Machine) (list : ℕ) (ts : List Tag)
      (zero_result : (fdt.open_into m.ram dtb dtb space).1 ≡ pos 0)
      (stands : (a : ℕ) → list ≤ a → a < list + 4 * length (encode ts) → opened m a ≡ m.ram a)
      (reads : ReadsTree fdt dtb space (opened m))
      (root : fdt.path_offset (opened m) dtb (codes "/") ≡ pos 0)
      (cell : OneCell (content fdt (opened m) dtb (codes "/") (codes "#size-cells")))
      (placed : Placed locals.regs dtb space list ts) (words : WordsAt m.ram list (encode ts))
      (plain : All Plain ts) (enough : length ts < fuel) where
    -- Writes to the array are no writes to the tree.
    same_tree :
        (ram : View)
        → KeepsArray locals.regs (opened m) ram
        → (a : ℕ) → dtb ≤ a
        → a < dtb + space
        → ram a ≡ opened m a
    same_tree ram keeps a above below = keeps a (omega (arith, placed.array_tree))

    cells :
        (m' : Machine)
        → KeepsArray locals.regs (opened m) m'.ram
        → get_cell_size fdt fuel dtb m' ≡ ok 1 m'
    cells m' keeps =
        get_cell_size-one fuel fdt dtb m'
          (reads.offsets m'.ram (codes "/") (same_tree m'.ram keeps) ∙ root)
          (subst OneCell
            (sym (reads.contents m'.ram (same_tree m'.ram keeps) (codes "/") (codes "#size-cells")))
            cell)

    pub walked :
        Collects locals.regs
          (opened m)
          (take 16 (banks_of ts))
          (record m { ram = opened m })
          (for_each_tag fuel
            (fold_tag fdt fuel extend locals dtb)
            list
            (record { memcount = 0; memsize = 0 })
            (record m { ram = opened m }))
    walked =
        for_each_tag-Collects fdt fuel extend locals dtb (opened m) cells fuel list ts []
          (record { memcount = 0; memsize = 0 }) (record m { ram = opened m })
          (record {
            count = refl;
            room = omega arith;
            narrow = inl refl;
            bytes = refl;
            keeps = λ a o. refl;
          })
          (WordsAt-same list (encode ts) stands words) placed.list_array plain enough

    pub fold_tags-unset :
        banks_of ts ≡ []
        → fold_tags fdt fuel extend locals list dtb space m
          ≡ (let (packed, ret) = fdt.pack walked.ram dtb in ok ret (record m { ram = packed }))
    unfolding fold_tags
    fold_tags-unset nothing = rw (zero_result, walked.returns, none_counted) refl
      where
        none_counted : walked.banks.memcount ≡ 0
        none_counted =
            subst (λ l. walked.banks.memcount ≡ 2 * length (take 16 l)) nothing
              walked.collected.count

    pub fold_tags-set :
        (n : ℕ)
        → fdt.path_offset (opened m) dtb (codes "/memory") ≡ pos n
        → 0 < length (banks_of ts)
        → let kept = take 16 (banks_of ts) in
          let (set, zero') =
            fdt.setprop walked.ram dtb
              (pos n)
              (codes "reg")
              walked.ram
              locals.regs
              (8 * length kept) in
          fold_tags fdt fuel extend locals list dtb space m
          ≡ (let (packed, ret) = fdt.pack set dtb in ok ret (record m { ram = packed }))
    unfolding fold_tags
    fold_tags-set n node some_banks =
        rw
          (
            zero_result,
            walked.returns,
            pos→== walked.banks.memcount counted,
            size_eq,
            setprop-there fdt fuel dtb (codes "/memory") (codes "reg") locals.regs
                (8 * length (take 16 (banks_of ts))) n (record m { ram = walked.ram })
                (reads.offsets walked.ram (codes "/memory")
                    (same_tree walked.ram walked.collected.keeps)
                  ∙ node),
          )
          refl
      where
        kept_some : 0 < length (take 16 (banks_of ts))
        kept_some = take_some 15 (banks_of ts) some_banks

        counted : 0 < walked.banks.memcount
        counted = omega (arith, walked.collected.count, kept_some)

        size_eq :
            u32 (4 * walked.banks.memcount * walked.banks.memsize)
            ≡ 8 * length (take 16 (banks_of ts))
        size_eq = elim walked.collected.narrow [
          | inl nothing ↦ absurd (omega (arith, nothing, kept_some))
          | inr is_one ↦ rw is_one (omega (arith, walked.collected.count, walked.collected.room))
        ]

    -- What the tree says.
    pub reg_said :
        (n : ℕ) (set : View) (ret : ℤ)
        → fdt.path_offset (opened m) dtb (codes "/memory") ≡ pos n
        → SetpropContract fdt walked.ram dtb
            (codes "/memory")
            (codes "reg")
            (bytes_of walked.ram locals.regs (8 * length (take 16 (banks_of ts))))
            (set, ret)
        → ret ≡ pos 0
        → (content fdt set dtb (codes "/memory") (codes "reg")
            ≡ some (bank_bytes (take 16 (banks_of ts))))
          × ((path name : List ℕ)
              → (fdt.path_offset (opened m) dtb path ≢ pos n) ⊎ (name ≢ codes "reg")
              → content fdt set dtb path name ≡ content fdt (opened m) dtb path name)
    reg_said n set ret node keeps zero' =
        let done = setprop-Sets keeps zero' in
        let same = same_tree walked.ram walked.collected.keeps in
        let at = reads.offsets walked.ram (codes "/memory") same ∙ node in
        (
          done.now ∙ ap some walked.collected.bytes,
          λ path name other.
              done.others path name (elim other [
                | inl apart ↦ inl (λ e. apart (sym (reads.offsets walked.ram path same) ∙ e ∙ at))
                | inr ne ↦ inr ne
              ])
              ∙ reads.contents walked.ram same path name,
        )
