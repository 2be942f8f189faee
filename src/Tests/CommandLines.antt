-- ===== src/Tests/CommandLines.antt =====
-- merge_fdt_bootargs of libfdt/atags_to_fdt.c with "a" in the tree and "b" in the tag.
use pxa_impedance_matcher.Base.{
  ◌≡◌, ◌∙◌, refl, sym, inl, some, [], ◌∷◌, arith, codes, ◌==◌, if◌then◌else◌, View,
}
use pxa_impedance_matcher.Base.Int.{pos}
use pxa_impedance_matcher.Ram.{store}
use pxa_impedance_matcher.Machine.{Machine, ok}
use pxa_impedance_matcher.Fdt.Contract.{bytes_of, content, Sets, set}
use pxa_impedance_matcher.AtagsToFdt.{merge_fdt_bootargs}
use pxa_impedance_matcher.AtagsToFdt.Joined.{merge_fdt_bootargs-joined}
use pxa_impedance_matcher.Tests.SmallFdt.{small, small_setprop, small-said, args_others}

-- The tree is at 0x1000, the tag's text at 0x800.
abbrev machine : Machine
machine = record {
  ram = λ a.
      if a == 0x103f then 2 else (if a == 0x1040 then b'a' else (if a == 0x800 then b'b' else 0));
  history = [];
}

args_set :
    (ram : View)
    → Sets small ram 0x1000
        (codes "/chosen")
        (codes "bootargs")
        (bytes_of ram 0x2000 5)
        (small_setprop ram 0x1000 (pos 8) (codes "bootargs") ram 0x2000 5).0
unfolding store
args_set ram =
    let out = (small_setprop ram 0x1000 (pos 8) (codes "bootargs") ram 0x2000 5).0 in
    record {
      now = refl;
      others = λ path name differs.
          small-said out 0x1000 path name
          ∙ args_others ram out 0x1000 refl path name differs
          ∙ sym (small-said ram 0x1000 path name);
    }

merge_fdt_bootargs-joined_example :
    (m' : Machine) × (merge_fdt_bootargs small 1024 0x1000 0x2000 0x800 machine ≡ ok (pos 0) m')
    × (content small m'.ram 0x1000 (codes "/chosen") (codes "bootargs")
        ≡ some (b'a' ∷ 32 ∷ b'b' ∷ 0 ∷ 0 ∷ []))
merge_fdt_bootargs-joined_example =
    merge_fdt_bootargs-joined small 1024 0x1000 0x2000 0x1040 0x800 8 (b'a' ∷ []) (b'b' ∷ [])
      machine (λ e. omega (arith, e)) (refl, omega arith, refl) (refl, omega arith, refl)
      (inl (omega arith)) (inl (omega arith)) (omega arith) (omega arith) refl refl refl
      (set (args_set _) refl, refl)
