-- ===== src/AtagsToFdt/Access.antt =====
-- The accessors of libfdt/atags_to_fdt.c: a node by its path, a property read and set.
use pxa_impedance_matcher.Base.{ℕ, ◌+◌, Bool, false, List, ◌==◌, if◌then◌else◌, codes}
use pxa_impedance_matcher.Base.Int.{ℤ, pos, negsuc, is_neg}
use pxa_impedance_matcher.Str.{strlen}
use pxa_impedance_matcher.Machine.{Cmd, pure, ◌>>=◌, ◌>>◌, lift, get_ram, set_ram}
use pxa_impedance_matcher.Endian.{load32, fdt32_to_cpu}
use pxa_impedance_matcher.Fdt.{Fdt, Property, value, missing, fdt_setprop_cell}

-- Whether an offset is -FDT_ERR_NOTFOUND.
abbrev pub is_notfound : ℤ → Bool
is_notfound (pos n) = false
is_notfound (negsuc n) = n == 0

module _ (fdt : Fdt) (fuel : ℕ) where
  unfoldable pub node_offset : ℕ → List ℕ → Cmd ℤ
  node_offset dtb path = do
    ram ← get_ram
    let offset = fdt.path_offset ram dtb path
    let (ram', added) = fdt.add_subnode ram dtb (pos 0) path
    if is_notfound offset then (set_ram ram' >> pure added) else pure offset

  -- The start of the three setters: a node that cannot be had is the result.
  unfoldable pub with_node : ℕ → List ℕ → (ℤ → Cmd ℤ) → Cmd ℤ
  unfolding node_offset
  with_node dtb path set = do
    offset ← node_offset dtb path
    if is_neg offset then pure offset else set offset

  -- The values are in the RAM.
  unfoldable pub setprop : ℕ → List ℕ → List ℕ → ℕ → ℕ → Cmd ℤ
  unfolding with_node
  setprop dtb path name val size = with_node dtb path (λ offset. do
    ram ← get_ram
    let (ram', ret) = fdt.setprop ram dtb offset name ram val size
    set_ram ram'
    pure ret)

  -- fdt_setprop_string is a macro: fdt_setprop with strlen(string) + 1 bytes.
  unfoldable pub setprop_string : ℕ → List ℕ → List ℕ → ℕ → Cmd ℤ
  unfolding with_node
  setprop_string dtb path name string = with_node dtb path (λ offset. do
    ram ← get_ram
    len ← lift (strlen fuel ram string)
    let (ram', ret) = fdt.setprop ram dtb offset name ram string (len + 1)
    set_ram ram'
    pure ret)

  unfoldable pub setprop_cell : ℕ → List ℕ → List ℕ → ℕ → Cmd ℤ
  unfolding with_node fdt_setprop_cell
  setprop_cell dtb path name val = with_node dtb path (λ offset. do
    ram ← get_ram
    let (ram', ret) = fdt_setprop_cell fdt ram dtb offset name val
    set_ram ram'
    pure ret)

  unfoldable pub getprop : ℕ → List ℕ → List ℕ → Cmd Property
  getprop dtb path name = do
    ram ← get_ram
    let offset = fdt.path_offset ram dtb path
    pure (if is_notfound offset then missing offset else fdt.getprop ram dtb offset name)

  unfoldable pub get_cell_size : ℕ → Cmd ℕ
  unfolding getprop
  get_cell_size dtb = do
    size_len ← getprop dtb (codes "/") (codes "#size-cells")
    ram ← get_ram
    pure (elim size_len [ missing _ ↦ 1 | value val _ ↦ fdt32_to_cpu (load32 ram val) ])
