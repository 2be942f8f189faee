-- ===== src/AtagsToFdt/Joined.antt =====
-- merge_fdt_bootargs of libfdt/atags_to_fdt.c: what the tree says of the command line.
use pxa_impedance_matcher.Base.{
  ℕ, suc, ◌+◌, ◌≤◌, ◌<◌, ◌≡◌, ◌≢◌, refl, ap, ◌∙◌, ◌⊎◌, some, List, [], ◌∷◌, ◌++◌, arith, codes,
  length, length-append, Holds,
}
use pxa_impedance_matcher.Base.Int.{pos}
use pxa_impedance_matcher.Str.Length.{strlen_lem}
use pxa_impedance_matcher.Machine.{Machine, ok}
use pxa_impedance_matcher.Fdt.{Fdt, value}
use pxa_impedance_matcher.Fdt.Contract.{bytes_of, content, SetpropContract}
use pxa_impedance_matcher.Fdt.Cells.{setprop-Sets, bytes_of-Holds}
use pxa_impedance_matcher.AtagsToFdt.{command_line_size, merge_fdt_bootargs}
use pxa_impedance_matcher.AtagsToFdt.Access.{getprop, with_node, node_offset, setprop_string}
use pxa_impedance_matcher.AtagsToFdt.Bootargs.{joined, fill_cmdline-joined, joined-Holds}

module _ (fdt : Fdt) (fuel dtb cmdline : ℕ) where
  setprop_string-there :
      (path name xs : List ℕ) (n : ℕ) (m : Machine)
      → fdt.path_offset m.ram dtb path ≡ pos n
      → Holds m.ram cmdline xs
      → length xs < fuel
      → setprop_string fdt fuel dtb path name cmdline m ≡ (
          let (set, ret) = fdt.setprop m.ram dtb (pos n) name m.ram cmdline (length xs + 1 + 1) in
          ok ret (record m { ram = set }))
  unfolding setprop_string with_node node_offset
  setprop_string-there path name xs n m there h enough =
      rw (there, strlen_lem fuel m.ram cmdline xs h enough) refl

  -- bootargs of /chosen is a string, the command line of the tag is one too, neither stands in the
  -- buffer, and both with three bytes more are shorter than the buffer; the fuel is at least the
  -- buffer's size, /chosen is where it was after the buffer is filled, and fdt_setprop sets the
  -- property and returns 0. Then merge_fdt_bootargs returns, and the tree says as bootargs the old
  -- command line, a blank and the tag's command line, with two NULs.
  pub merge_fdt_bootargs-joined :
      (val text n : ℕ) (xs ys : List ℕ) (m : Machine)
      → let line = xs ++ 0x20 ∷ ys in
        let ram = joined fdt fuel cmdline m.ram val (length xs) text (length ys) in
        text ≢ 0
        → Holds m.ram val xs
        → Holds m.ram text ys
        → (val + length xs < cmdline) ⊎ (cmdline + command_line_size ≤ val)
        → (text + length ys < cmdline) ⊎ (cmdline + command_line_size ≤ text)
        → length xs + length ys + 3 < command_line_size
        → command_line_size ≤ fuel
        → fdt.path_offset m.ram dtb (codes "/chosen") ≡ pos n
        → fdt.getprop m.ram dtb (pos n) (codes "bootargs") ≡ value val (length xs + 1)
        → fdt.path_offset ram dtb (codes "/chosen") ≡ pos n
        → (let call =
              fdt.setprop ram dtb (pos n) (codes "bootargs") ram cmdline (length line + 1 + 1) in
            SetpropContract fdt ram dtb
              (codes "/chosen")
              (codes "bootargs")
              (bytes_of ram cmdline (length line + 1 + 1))
              call
            × (call.1 ≡ pos 0))
        → (m' : Machine) × (merge_fdt_bootargs fdt fuel dtb cmdline text m ≡ ok (pos 0) m')
          × (content fdt m'.ram dtb (codes "/chosen") (codes "bootargs")
              ≡ some (line ++ 0 ∷ 0 ∷ []))
  unfolding merge_fdt_bootargs getprop
  merge_fdt_bootargs-joined val text n xs ys m given old new old_apart new_apart fits enough chosen
        is chosen' (keeps, zero') =
      let line = xs ++ 0x20 ∷ ys in
      let ram = joined fdt fuel cmdline m.ram val (length xs) text (length ys) in
      let (holds, behind) =
        joined-Holds fdt fuel cmdline m.ram val text xs ys old new old_apart new_apart fits in
      let call = fdt.setprop ram dtb (pos n) (codes "bootargs") ram cmdline (length line + 1 + 1) in
      (
        record m { ram = call.0 },
        rw
            (
              chosen,
              is,
              fill_cmdline-joined fdt fuel cmdline val text xs ys m given new (omega arith)
                  new_apart fits,
            )
            (setprop_string-there (codes "/chosen") (codes "bootargs") line n
                (record m { ram = ram }) chosen' holds (omega (arith, length-append xs (0x20 ∷ ys)))
              ∙ ap (λ r. ok r (record m { ram = call.0 })) zero'),
        (setprop-Sets keeps zero').now
            ∙ ap some (
                ap (bytes_of ram cmdline) {y = suc (suc (length line))} (omega arith)
                ∙ bytes_of-Holds ram cmdline line holds
                ∙ ap (λ b. line ++ 0 ∷ b ∷ []) behind),
      )
