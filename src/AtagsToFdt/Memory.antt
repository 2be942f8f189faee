-- ===== src/AtagsToFdt/Memory.antt =====
-- The memory tags of libfdt/atags_to_fdt.c, and the array that they are collected in.
use pxa_impedance_matcher.Base.{
  ℕ, ◌+◌, ◌*◌, ◌%◌, ◌≤◌, ◌<◌, ◌≡◌, ◌≢◌, refl, ap, ◌∙◌, inl, inr, Bool, true, false, not, ◌||◌,
  arith, ltb, ◌==◌, Bool-cases, lt→ltb, le→ltb, ltb→lt, ne→==, eq→==, View,
}
use pxa_impedance_matcher.Machine.{Machine, Run, ok, undefined, and_then}
use pxa_impedance_matcher.Endian.{cpu_to_fdt32, store32}
use pxa_impedance_matcher.Fdt.{Fdt}
use pxa_impedance_matcher.Atags.Struct.{member, tag_mem32}
use pxa_impedance_matcher.AtagsToFdt.Access.{get_cell_size}
use pxa_impedance_matcher.AtagsToFdt.{reg_cells, Banks, put_cell, put_wide, put_bank, mem_tag}
use pxa_impedance_matcher.Ram.Area.{Keeps, Keeps-trans, store32-Keeps}

-- The walk may go on: it returns, the count is even and within the array, and nothing outside the
-- array has changed.
pub record Banked (regs : ℕ) (m : Machine) (r : Run Banks) : Type 0 where
  pub banks : Banks
  pub ram : View
  pub returns : r ≡ ok banks (record m { ram = ram })
  pub within : banks.memcount ≤ reg_cells
  pub even : banks.memcount % 2 ≡ 0
  pub keeps : Keeps regs (regs + 4 * reg_cells) m.ram ram

-- The tag is taken: there is room for its first number.
pub taken-lt : (n : ℕ) (y : Bool) → not (ltb n reg_cells) || y ≡ false → n < reg_cells
taken-lt n y e = elim (Bool-cases (ltb n reg_cells)) [
  | inl lt ↦ ltb→lt n reg_cells lt
  | inr over ↦ (let e' = rw over at e in cc)
]

-- The RAM with a bank of two 32-bit numbers in the array.
abbrev pub stored : ℕ → View → ℕ → ℕ → ℕ → View
stored regs ram i start size =
    store32 (store32 ram (regs + 4 * i) (cpu_to_fdt32 start)) (regs + 4 * (i + 1))
      (cpu_to_fdt32 size)

pub stored-Keeps :
    (regs : ℕ) (ram : View) (i start size : ℕ)
    → i + 2 ≤ reg_cells
    → Keeps regs (regs + 4 * reg_cells) ram (stored regs ram i start size)
stored-Keeps regs ram i start size room =
    Keeps-trans
      (store32-Keeps regs (regs + 4 * reg_cells) ram (regs + 4 * i) (cpu_to_fdt32 start)
        (omega arith) (omega arith))
      (store32-Keeps regs (regs + 4 * reg_cells) (store32 ram (regs + 4 * i) (cpu_to_fdt32 start))
        (regs + 4 * (i + 1)) (cpu_to_fdt32 size) (omega arith) (omega arith))

module _ (fdt : Fdt) (fuel regs : ℕ) where
  put_cell-inside :
      (i x : ℕ) (m : Machine)
      → i < reg_cells
      → put_cell fdt fuel regs i x m ≡ ok tt (record m { ram = store32 m.ram (regs + 4 * i) x })
  unfolding put_cell
  put_cell-inside i x m lt = rw (lt→ltb i reg_cells lt)

  put_cell-outside :
      (i x : ℕ) (m : Machine) → reg_cells ≤ i → put_cell fdt fuel regs i x m ≡ undefined
  unfolding put_cell
  put_cell-outside i x m le = rw (le→ltb i reg_cells le)

  -- A bank of 32-bit numbers.
  pub put_bank-stored :
      (b : Banks) (start size : ℕ) (m : Machine)
      → b.memsize ≢ 2
      → b.memcount + 2 ≤ reg_cells
      → put_bank fdt fuel regs b start size m
        ≡ ok
            (record b { memcount = b.memcount + 2 })
            (record m { ram = stored regs m.ram b.memcount start size })
  unfolding put_bank
  put_bank-stored b start size m narrow room = rw (
    ne→== b.memsize 2 narrow,
    put_cell-inside b.memcount (cpu_to_fdt32 start) m (omega arith),
    put_cell-inside (b.memcount + 1) (cpu_to_fdt32 size)
        (record m { ram = store32 m.ram (regs + 4 * b.memcount) (cpu_to_fdt32 start) })
        (omega arith),
  )

  put_bank-narrow :
      (b : Banks) (start size : ℕ) (m : Machine)
      → b.memsize ≢ 2
      → b.memcount + 2 ≤ reg_cells
      → b.memcount % 2 ≡ 0
      → Banked regs m (put_bank fdt fuel regs b start size m)
  put_bank-narrow b start size m narrow room even = record {
    banks = record b { memcount = b.memcount + 2 };
    ram = stored regs m.ram b.memcount start size;
    returns = put_bank-stored b start size m narrow room;
    within = room;
    even = omega arith;
    keeps = stored-Keeps regs m.ram b.memcount start size room;
  }

  -- A bank of 64-bit numbers from the 16th element on.
  put_bank-wide :
      (b : Banks) (start size : ℕ) (m : Machine)
      → b.memsize ≡ 2
      → 16 ≤ b.memcount
      → put_bank fdt fuel regs b start size m ≡ undefined
  unfolding put_bank put_wide
  put_bank-wide b start size m wide over =
      rw (eq→== b.memsize 2 wide, put_cell-outside (2 * b.memcount) 0 m (omega arith))

  module _ (dtb t c : ℕ) (b : Banks) (m : Machine)
      (cells : get_cell_size fdt fuel dtb m ≡ ok c m) where
    pub mem_tag-skipped :
        (not (ltb b.memcount reg_cells) || member m.ram t tag_mem32 "size" == 0) ≡ true
        → mem_tag fdt fuel dtb regs t b m ≡ ok b m
    unfolding mem_tag
    mem_tag-skipped skip = rw skip refl

    -- The bank of the tag is put after the others.
    pub mem_tag-taken :
        (not (ltb b.memcount reg_cells) || member m.ram t tag_mem32 "size" == 0) ≡ false
        → mem_tag fdt fuel dtb regs t b m
          ≡ put_bank fdt fuel regs
              (record b { memsize = c })
              (member m.ram t tag_mem32 "start")
              (member m.ram t tag_mem32 "size")
              m
    unfolding mem_tag
    mem_tag-taken taken = rw taken (
        ap
          (λ r. and_then r λ memsize.
            put_bank fdt fuel regs (record b { memsize = memsize })
              (member m.ram t tag_mem32 "start") (member m.ram t tag_mem32 "size"))
          cells)

    -- Where the tree's cells for a size are not 2, a memory tag keeps the count of numbers even and
    -- within the array, and writes nothing outside the array.
    pub mem_tag-Banked :
        c ≢ 2
        → b.memcount ≤ reg_cells
        → b.memcount % 2 ≡ 0
        → Banked regs m (mem_tag fdt fuel dtb regs t b m)
    mem_tag-Banked narrow within even =
        elim (Bool-cases (not (ltb b.memcount reg_cells) || member m.ram t tag_mem32 "size" == 0)) [
          | inl skip ↦ record {
            banks = b;
            ram = m.ram;
            returns = mem_tag-skipped skip;
            within = within;
            even = even;
            keeps = λ a o. refl;
          }
          | inr taken ↦ rw (mem_tag-taken taken) (
              put_bank-narrow (record b { memsize = c }) (member m.ram t tag_mem32 "start")
                (member m.ram t tag_mem32 "size") m narrow
                (omega (arith, taken-lt b.memcount _ taken)) even)
        ]

    -- Where the tree's cells for a size are 2, and 16 numbers of 64 bits already fill the array, a
    -- memory tag with a size passes the test for room, and writes behind the array.
    pub mem_tag-overrun :
        c ≡ 2
        → 16 ≤ b.memcount
        → b.memcount < reg_cells
        → member m.ram t tag_mem32 "size" ≢ 0
        → mem_tag fdt fuel dtb regs t b m ≡ undefined
    mem_tag-overrun wide full room given =
        mem_tag-taken
          (rw (lt→ltb b.memcount reg_cells room, ne→== (member m.ram t tag_mem32 "size") 0 given))
        ∙ put_bank-wide (record b { memsize = c }) (member m.ram t tag_mem32 "start")
            (member m.ram t tag_mem32 "size") m wide full
