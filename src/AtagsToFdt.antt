-- ===== src/AtagsToFdt.antt =====
-- libfdt/atags_to_fdt.c: the tagged list folded into a device tree.

pub mod Access
pub mod Memory
pub mod CommandLine
pub mod Bootargs
pub mod Chosen
pub mod Joined
pub mod Errors
pub mod Collected
pub mod Collecting
pub mod Walked
pub mod Merged
pub mod Cells
pub mod Folded
pub mod Opened
use pxa_impedance_matcher.Base.{
  ℕ, zero, suc, ◌+◌, ◌-◌, ◌*◌, ◌/◌, ◌%◌, ◌^◌, ◌≤◌, ◌<◌, ◌≡◌, Bool, true, false, not, ◌&&◌, ◌||◌,
  Option, none, some, List, arith, ltb, ◌==◌, if◌then◌else◌, codes, View, u32,
}
use pxa_impedance_matcher.Base.Int.{ℤ, pos, negsuc, is_neg}
use pxa_impedance_matcher.Str.{strlen}
use pxa_impedance_matcher.Ram.{store, memcpy}
use pxa_impedance_matcher.Machine.{
  Machine, undefined, Cmd, pure, ◌>>=◌, ◌>>◌, lift, get_ram, set_ram,
}
use pxa_impedance_matcher.Endian.{load32, store32, cpu_to_fdt32, fdt32_to_cpu}
use pxa_impedance_matcher.Fdt.{Fdt, Property, value, missing, setprop_u32}
use pxa_impedance_matcher.Fdt.Header.{fdt_magic}
use pxa_impedance_matcher.Atags.Struct.{
  atag_core, atag_mem, atag_initrd2, atag_serial, tag_core, tag_mem32, tag_initrd, tag_serialnr,
  member, tag_words,
}
use pxa_impedance_matcher.Atags.{atag_cmdline, tag_size, tag_kind, tag_body, for_each_tag}
use pxa_impedance_matcher.AtagsToFdt.Access.{
  setprop, setprop_string, setprop_cell, getprop, get_cell_size,
}

abbrev pub command_line_size : ℕ
command_line_size = 1024

abbrev pub nr_banks : ℕ
nr_banks = 8

-- The number of elements of `mem_reg_property`.
abbrev pub reg_cells : ℕ
reg_cells = 2 * 2 * nr_banks

-- The addresses of the local arrays `cmdline`, `mem_reg_property` and `serial`.
pub record Locals : Type 0 where
  pub cmdline : ℕ
  pub regs : ℕ
  pub serial : ℕ

-- The local variables that the walk changes.
pub record Banks : Type 0 where
  pub memcount : ℕ
  pub memsize : ℕ

module _ (fdt : Fdt) (fuel : ℕ) where
  -- The tree's command line is copied into the buffer at `cmdline`; the result is `ptr`, at the NUL
  -- of the copy. The buffer does not start at the address 0.
  unfoldable pub copy_bootargs : ℕ → Property → Cmd ℕ
  copy_bootargs cmdline (missing _) = pure cmdline
  copy_bootargs cmdline (value val len) = do
    ram ← get_ram
    if ltb len command_line_size
        then (set_ram (memcpy ram cmdline val len) >> pure (cmdline + len - 1))
        else pure cmdline

  -- The tag's command line is appended behind a blank, if it fits. The comparison is that of
  -- `ptr - cmdline + len + 2 < COMMAND_LINE_SIZE`, without the subtraction.
  unfoldable pub append_cmdline : ℕ → ℕ → ℕ → Cmd ℕ
  append_cmdline cmdline ptr text = do
    ram ← get_ram
    len ← lift (strlen fuel ram text)
    if ltb (ptr + len + 2) (cmdline + command_line_size)
        then (set_ram (memcpy (store ram ptr 0x20) (ptr + 1) text len) >> pure (ptr + 1 + len))
        else pure ptr

  -- The buffer is filled.
  unfoldable pub fill_cmdline : ℕ → Property → ℕ → Cmd (Unit {0})
  unfolding copy_bootargs append_cmdline
  fill_cmdline cmdline bootargs text = do
    ptr ← copy_bootargs cmdline bootargs
    ptr' ← if text == 0 then pure ptr else append_cmdline cmdline ptr text
    ram ← get_ram
    set_ram (store ram ptr' 0)

  unfoldable pub merge_fdt_bootargs : ℕ → ℕ → ℕ → Cmd ℤ
  unfolding getprop fill_cmdline setprop_string
  merge_fdt_bootargs dtb cmdline text = do
    bootargs ← getprop fdt fuel dtb (codes "/chosen") (codes "bootargs")
    fill_cmdline cmdline bootargs text
    setprop_string fdt fuel dtb (codes "/chosen") (codes "bootargs") cmdline

  -- An element of `mem_reg_property`; past the array's end the write is undefined.
  unfoldable pub put_cell : ℕ → ℕ → ℕ → Cmd (Unit {0})
  put_cell regs i x = do
    ram ← get_ram
    if ltb i reg_cells then set_ram (store32 ram (regs + 4 * i) x) else (λ _. undefined)

  -- An element of the array as one of 64-bit numbers: the high word, 0, comes first.
  unfoldable pub put_wide : ℕ → ℕ → ℕ → Cmd (Unit {0})
  unfolding put_cell
  put_wide regs i x = put_cell regs (2 * i) 0 >> put_cell regs (2 * i + 1) (cpu_to_fdt32 x)

  unfoldable pub put_bank : ℕ → Banks → ℕ → ℕ → Cmd Banks
  unfolding put_cell put_wide
  put_bank regs b start size = do
    if b.memsize == 2
        then (put_wide regs b.memcount start >> put_wide regs (b.memcount + 1) size)
        else (put_cell regs b.memcount (cpu_to_fdt32 start)
            >> put_cell regs (b.memcount + 1) (cpu_to_fdt32 size))
    pure (record b { memcount = b.memcount + 2 })

  -- A memory tag: its size, then its start.
  unfoldable pub mem_tag : ℕ → ℕ → ℕ → Banks → Cmd Banks
  unfolding get_cell_size put_bank
  mem_tag dtb regs t b = do
    ram ← get_ram
    let size = member ram t tag_mem32 "size"
    let start = member ram t tag_mem32 "start"
    if not (ltb b.memcount reg_cells) || size == 0 then pure b else (do
      memsize ← get_cell_size fdt fuel dtb
      put_bank regs (record b { memsize = memsize }) start size)

  unfoldable pub initrd_tag : ℕ → ℕ → Cmd ℤ
  unfolding setprop_cell
  initrd_tag dtb t = do
    ram ← get_ram
    let start = member ram t tag_initrd "start"
    let size = member ram t tag_initrd "size"
    setprop_cell fdt fuel dtb (codes "/chosen") (codes "linux,initrd-start") start
    setprop_cell fdt fuel dtb (codes "/chosen") (codes "linux,initrd-end") (u32 (start + size))

  -- The low word of the number comes first in the tag, the high word in the property.
  unfoldable pub serial_tag : ℕ → ℕ → ℕ → Cmd ℤ
  unfolding setprop
  serial_tag dtb serial t = do
    ram ← get_ram
    let low = cpu_to_fdt32 (member ram t tag_serialnr "low")
    let high = cpu_to_fdt32 (member ram t tag_serialnr "high")
    set_ram (store32 (store32 ram serial high) (serial + 4) low)
    setprop fdt fuel dtb (codes "/chosen") (codes "linux,serial-number") serial 8

  -- CONFIG_ARM_ATAG_DTB_COMPAT_CMDLINE_EXTEND chooses between the two.
  unfoldable pub cmdline_tag : Bool → ℕ → ℕ → ℕ → Cmd ℤ
  unfolding merge_fdt_bootargs setprop_string
  cmdline_tag do_extend_cmdline dtb cmdline t =
      if do_extend_cmdline
      then merge_fdt_bootargs dtb cmdline (tag_body t)
      else setprop_string fdt fuel dtb (codes "/chosen") (codes "bootargs") (tag_body t)

  -- The body of the walk. The results of the setters are not looked at.
  unfoldable pub fold_tag : Bool → Locals → ℕ → ℕ → Banks → Cmd Banks
  unfolding cmdline_tag mem_tag initrd_tag serial_tag
  fold_tag do_extend_cmdline locals dtb t b = do
    ram ← get_ram
    let kind = tag_kind ram t
    if kind == atag_cmdline
        then (cmdline_tag do_extend_cmdline dtb locals.cmdline t >> pure b)
        else (if kind == atag_mem
            then mem_tag dtb locals.regs t b
            else (if kind == atag_initrd2
                then (initrd_tag dtb t >> pure b)
                else (if kind == atag_serial
                    then (serial_tag dtb locals.serial t >> pure b)
                    else pure b)))

  -- The tree is opened, the tags are folded in, the memory is set and the tree is packed.
  unfoldable pub fold_tags : Bool → Locals → ℕ → ℕ → ℕ → Cmd ℤ
  unfolding fold_tag setprop
  fold_tags do_extend_cmdline locals atag_list dtb total_space = do
    ram ← get_ram
    let (opened, ret) = fdt.open_into ram dtb dtb total_space
    set_ram opened
    if is_neg ret then pure ret else (do
      b ←
          for_each_tag fuel (fold_tag do_extend_cmdline locals dtb) atag_list
            (record { memcount = 0; memsize = 0 })
      if b.memcount == 0
          then pure (pos 0)
          else setprop fdt fuel dtb (codes "/memory") (codes "reg") locals.regs
              (u32 (4 * b.memcount * b.memsize))
      ram' ← get_ram
      let (packed, result) = fdt.pack ram' dtb
      set_ram packed
      pure result)

  -- Whether the list starts with the tag that it must start with.
  abbrev pub is_list : View → ℕ → Bool
  is_list ram t =
      tag_kind ram t == atag_core && (tag_size ram t == tag_words tag_core || tag_size ram t == 2)

  unfoldable pub atags_to_fdt : Bool → Locals → ℕ → ℕ → ℕ → Cmd ℤ
  unfolding fold_tags
  atags_to_fdt do_extend_cmdline locals atag_list dtb total_space = do
    ram ← get_ram
    if not (atag_list % 4 == 0)
        then pure (pos 1)
        else (if load32 ram atag_list == fdt32_to_cpu fdt_magic
            then pure (pos 0)
            else (if is_list ram atag_list
                then fold_tags do_extend_cmdline locals atag_list dtb total_space
                else pure (pos 1)))
