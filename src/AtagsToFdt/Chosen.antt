-- ===== src/AtagsToFdt/Chosen.antt =====
-- The initrd and the serial number tags of libfdt/atags_to_fdt.c: what the tree says of them.
use pxa_impedance_matcher.Base.{
  ℕ, ◌+◌, ◌*◌, ◌^◌, ◌<◌, ◌≡◌, ◌≢◌, refl, ap, ap₂, ◌∙◌, inr, some, List, ◌++◌, arith, codes, View,
  IsBytes, u32,
}
use pxa_impedance_matcher.Base.Int.{pos}
use pxa_impedance_matcher.Endian.{load32, store32, cpu_to_fdt32}
use pxa_impedance_matcher.Machine.{Machine, ok, and_then}
use pxa_impedance_matcher.Fdt.{Fdt, big_endian, setprop_u32, fdt_setprop_cell}
use pxa_impedance_matcher.Fdt.Contract.{bytes_of, big_endian_bytes, content, Sets, SetpropContract}
use pxa_impedance_matcher.Fdt.Cells.{setprop-Sets, setprop_u32-SetpropU32Contract}
use pxa_impedance_matcher.Atags.Struct.{member, tag_initrd, tag_serialnr}
use pxa_impedance_matcher.AtagsToFdt.{initrd_tag, serial_tag}
use pxa_impedance_matcher.AtagsToFdt.Access.{node_offset, with_node, setprop_cell}
use pxa_impedance_matcher.AtagsToFdt.Collected.{bytes_of-stored}
use pxa_impedance_matcher.AtagsToFdt.Memory.{stored}
use pxa_impedance_matcher.AtagsToFdt.Opened.{setprop-there}

load32-lt : (ram : View) (a : ℕ) → IsBytes ram → load32 ram a < 2 ^ 32
unfolding load32
load32-lt ram a bytes = omega (arith, bytes a, bytes (a + 1), bytes (a + 2), bytes (a + 3))

-- A call that sets `len` bytes from `a` on in `v`, and returns 0.
abbrev pub SetsBytes : Fdt → View → ℕ → ℕ → List ℕ → View → ℕ → ℕ → Type 0
SetsBytes fdt ram dtb n name v a len =
    let call = fdt.setprop ram dtb (pos n) name v a len in
    SetpropContract fdt ram dtb (codes "/chosen") name (bytes_of v a len) call × (call.1 ≡ pos 0)

module _ (fdt : Fdt) (fuel dtb : ℕ) where
  -- The RAM after a cell of /chosen is set.
  abbrev pub celled : View → ℕ → List ℕ → ℕ → View
  celled ram n name val = (fdt.setprop ram dtb (pos n) name (big_endian val) 0 4).0

  setprop_cell-Sets :
      (name : List ℕ) (val n : ℕ) (m : Machine)
      → val < 2 ^ 32
      → fdt.path_offset m.ram dtb (codes "/chosen") ≡ pos n
      → SetsBytes fdt m.ram dtb n name (big_endian val) 0 4
      → (setprop_cell fdt fuel dtb (codes "/chosen") name val m
          ≡ ok (pos 0) (record m { ram = celled m.ram n name val }))
        × Sets fdt m.ram dtb (codes "/chosen") name (big_endian_bytes val) (celled m.ram n name val)
  unfolding setprop_cell with_node node_offset setprop_u32 fdt_setprop_cell
  setprop_cell-Sets name val n m lt there (keeps, zero') = (
    rw (there, zero') refl,
    setprop-Sets
        (setprop_u32-SetpropU32Contract fdt m.ram dtb (pos n) (codes "/chosen") name val lt keeps)
        zero',
  )

  -- Where the RAM has bytes, /chosen is there before each of the two calls, and fdt_setprop sets what
  -- it is given and returns 0, an initrd tag leaves a tree that says the initrd's start, and its end,
  -- the sum of start and size modulo 2 ^ 32, as big-endian words, and of every other name what it
  -- said.
  pub initrd_tag-says :
      (t n n' : ℕ) (m : Machine)
      → let start = member m.ram t tag_initrd "start" in
        let end = u32 (start + member m.ram t tag_initrd "size") in
        let mid = celled m.ram n (codes "linux,initrd-start") start in
        let out = celled mid n' (codes "linux,initrd-end") end in
        IsBytes m.ram
        → fdt.path_offset m.ram dtb (codes "/chosen") ≡ pos n
        → fdt.path_offset mid dtb (codes "/chosen") ≡ pos n'
        → SetsBytes fdt m.ram dtb n (codes "linux,initrd-start") (big_endian start) 0 4
        → SetsBytes fdt mid dtb n' (codes "linux,initrd-end") (big_endian end) 0 4
        → (initrd_tag fdt fuel dtb t m ≡ ok (pos 0) (record m { ram = out }))
          × (content fdt out dtb (codes "/chosen") (codes "linux,initrd-start")
              ≡ some (big_endian_bytes start))
          × (content fdt out dtb (codes "/chosen") (codes "linux,initrd-end")
              ≡ some (big_endian_bytes end))
          × ((path name : List ℕ)
              → name ≢ codes "linux,initrd-start"
              → name ≢ codes "linux,initrd-end"
              → content fdt out dtb path name ≡ content fdt m.ram dtb path name)
  unfolding initrd_tag
  initrd_tag-says t n n' m bytes there there' first second =
      let start = member m.ram t tag_initrd "start" in
      let end = u32 (start + member m.ram t tag_initrd "size") in
      let mid = celled m.ram n (codes "linux,initrd-start") start in
      let (runs, one) =
        setprop_cell-Sets (codes "linux,initrd-start") start n m (load32-lt m.ram _ bytes) there
          first in
      let (runs', two) =
        setprop_cell-Sets (codes "linux,initrd-end") end n' (record m { ram = mid }) (omega arith)
          there' second in
      (
        ap
              (λ r.
                and_then r
                  λ _. setprop_cell fdt fuel dtb (codes "/chosen") (codes "linux,initrd-end") end)
              runs
            ∙ runs',
        two.others (codes "/chosen") (codes "linux,initrd-start") (inr (λ e. cc)) ∙ one.now,
        two.now,
        λ path name ne1 ne2. two.others path name (inr ne2) ∙ one.others path name (inr ne1),
      )

  -- Where the RAM has bytes, /chosen is there once the number is in the local array, and fdt_setprop
  -- sets what it is given and returns 0, a serial number tag leaves a tree that says the high word
  -- and then the low word, both big-endian.
  pub serial_tag-says :
      (serial t n : ℕ) (m : Machine)
      → let high = member m.ram t tag_serialnr "high" in
        let low = member m.ram t tag_serialnr "low" in
        let ram =
          store32 (store32 m.ram serial (cpu_to_fdt32 high)) (serial + 4) (cpu_to_fdt32 low) in
        let out = (fdt.setprop ram dtb (pos n) (codes "linux,serial-number") ram serial 8).0 in
        IsBytes m.ram
        → fdt.path_offset ram dtb (codes "/chosen") ≡ pos n
        → SetsBytes fdt ram dtb n (codes "linux,serial-number") ram serial 8
        → (serial_tag fdt fuel dtb serial t m ≡ ok (pos 0) (record m { ram = out }))
          × (content fdt out dtb (codes "/chosen") (codes "linux,serial-number")
              ≡ some (big_endian_bytes high ++ big_endian_bytes low))
  unfolding serial_tag
  serial_tag-says serial t n m bytes there (keeps, zero') =
      let high = member m.ram t tag_serialnr "high" in
      let low = member m.ram t tag_serialnr "low" in
      let ram =
        store32 (store32 m.ram serial (cpu_to_fdt32 high)) (serial + 4) (cpu_to_fdt32 low) in
      let same : ram ≡ stored serial m.ram 0 high low =
        ap₂ (λ a b. store32 (store32 m.ram a (cpu_to_fdt32 high)) b (cpu_to_fdt32 low))
          {y = serial + 4 * 0} (omega arith) (omega arith) in
      (
        setprop-there fdt fuel dtb (codes "/chosen") (codes "linux,serial-number") serial 8 n
              (record m { ram = ram }) there
            ∙ ap
                (λ r. ok r (record m {
                  ram = (fdt.setprop ram dtb (pos n) (codes "linux,serial-number") ram serial 8).0;
                }))
                zero',
        (setprop-Sets keeps zero').now
            ∙ ap some (
                ap (λ v. bytes_of v serial 8) same
                ∙ bytes_of-stored serial m.ram 0 high low (load32-lt m.ram _ bytes)
                    (load32-lt m.ram _ bytes)),
      )
