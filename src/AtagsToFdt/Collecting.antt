-- ===== src/AtagsToFdt/Collecting.antt =====
-- One memory tag of libfdt/atags_to_fdt.c, and the banks collected so far.
use pxa_impedance_matcher.Base.{
  ltb→ge, ap₂, ltb, not, ◌||◌, ltb→lt, ℕ, ◌+◌, ◌*◌, ◌^◌, ◌≤◌, ◌<◌, ◌≡◌, refl, sym, ap, ◌∙◌, ◌⊎◌,
  inl, inr, List, [], ◌∷◌, ◌++◌, true, false, arith, length, length-append, View, Bool-cases, ◌==◌,
}
use pxa_impedance_matcher.Ram.Area.{Keeps, Keeps-trans}
use pxa_impedance_matcher.Machine.{Machine, Run, ok}
use pxa_impedance_matcher.Fdt.{Fdt}
use pxa_impedance_matcher.Fdt.Contract.{bytes_of, big_endian_bytes}
use pxa_impedance_matcher.Atags.Struct.{member, tag_mem32}
use pxa_impedance_matcher.AtagsToFdt.{reg_cells, Banks, put_bank, mem_tag}
use pxa_impedance_matcher.AtagsToFdt.Access.{get_cell_size}
use pxa_impedance_matcher.AtagsToFdt.Memory.{
  mem_tag-skipped, stored, stored-Keeps, put_bank-stored, mem_tag-taken,
}
use pxa_impedance_matcher.AtagsToFdt.Collected.{
  Bank, bank_in, bank_bytes, bank_bytes-append, filled, filled-next, filled-full, bytes_of-stored,
}

-- The array at `regs`.
abbrev pub KeepsArray : ℕ → View → View → Type 0
KeepsArray regs = Keeps regs (regs + 4 * reg_cells)

-- The banks stand in the array, and nothing outside it has changed since `before`.
pub record Collected (regs : ℕ) (before : View) (done : List Bank) (b : Banks) (ram : View)
    : Type 0 where
  pub count : b.memcount ≡ 2 * length done
  pub room : length done ≤ 16
  pub narrow : (length done ≡ 0) ⊎ (b.memsize ≡ 1)
  pub bytes : bytes_of ram regs (8 * length done) ≡ bank_bytes done
  pub keeps : KeepsArray regs before ram

-- A step returns, with the banks collected.
pub record Collects (regs : ℕ) (before : View) (done : List Bank) (m : Machine) (r : Run Banks)
    : Type 0 where
  pub banks : Banks
  pub ram : View
  pub returns : r ≡ ok banks (record m { ram = ram })
  pub collected : Collected regs before done banks ram

module _ (regs : ℕ) (before : View) where
  Collected-next :
      (done : List Bank) (b : Banks) (ram : View) (start size : ℕ)
      → Collected regs before done b ram
      → length done < 16
      → start < 2 ^ 32
      → size < 2 ^ 32
      → Collected regs before
          (done ++ (start, size) ∷ [])
          (record { memcount = b.memcount + 2; memsize = 1 })
          (stored regs ram b.memcount start size)
  Collected-next done b ram start size was more lt lt' =
      let longer : length (done ++ (start, size) ∷ []) ≡ length done + 1 =
        length-append done ((start, size) ∷ []) in
      record {
        count = omega (arith, was.count, longer);
        room = omega (arith, longer);
        narrow = inr refl;
        bytes =
            rw (longer, was.count)
              (bytes_of-stored regs ram (length done) start size lt lt'
                ∙ ap (λ l. l ++ (big_endian_bytes start ++ big_endian_bytes size)) was.bytes
                ∙ sym (bank_bytes-append done (start, size)));
        keeps =
            Keeps-trans was.keeps
              (stored-Keeps regs ram b.memcount start size (omega (arith, was.count)));
      }

module _ (fdt : Fdt) (fuel dtb regs : ℕ) (before : View) where
  mem_tag-stores :
      (done : List Bank) (b : Banks) (m : Machine) (t size start : ℕ)
      → Collected regs before done b m.ram
      → get_cell_size fdt fuel dtb m ≡ ok 1 m
      → member m.ram t tag_mem32 "size" ≡ size
      → member m.ram t tag_mem32 "start" ≡ start
      → size < 2 ^ 32
      → start < 2 ^ 32
      → (size == 0) ≡ false
      → ltb b.memcount reg_cells ≡ true
      → Collects regs before (done ++ (start, size) ∷ []) m (mem_tag fdt fuel dtb regs t b m)
  mem_tag-stores done b m t size start was cells is_size is_start lt lt' some_size has_room =
      record {
        banks = record { memcount = b.memcount + 2; memsize = 1 };
        ram = stored regs m.ram b.memcount start size;
        returns =
            mem_tag-taken fdt fuel regs dtb t 1 b m cells (rw (has_room, is_size, some_size) refl)
            ∙ ap₂ (λ x y. put_bank fdt fuel regs (record b { memsize = 1 }) x y m) is_start is_size
            ∙ put_bank-stored fdt fuel regs (record b { memsize = 1 }) start size m (λ e. cc)
                (omega (arith, was.count, ltb→lt b.memcount reg_cells has_room));
        collected =
            Collected-next regs before done b m.ram start size was
              (omega (arith, was.count, ltb→lt b.memcount reg_cells has_room)) lt' lt;
      }

  pub mem_tag-Collects :
      (done more : List Bank) (b : Banks) (m : Machine) (t size start : ℕ)
      → Collected regs before done b m.ram
      → get_cell_size fdt fuel dtb m ≡ ok 1 m
      → member m.ram t tag_mem32 "size" ≡ size
      → member m.ram t tag_mem32 "start" ≡ start
      → size < 2 ^ 32
      → start < 2 ^ 32
      → (done' : List Bank) × Collects regs before done' m (mem_tag fdt fuel dtb regs t b m)
        × (filled done' more ≡ filled done (bank_in (size ∷ start ∷ []) ++ more))
  mem_tag-Collects done more b m t size start was cells is_size is_start lt lt' =
      elim (Bool-cases (ltb b.memcount reg_cells)) [
        | inl has_room ↦ elim (Bool-cases (size == 0)) [
          | inl zero_size ↦
              (done, skipped (rw (is_size, has_room, zero_size) refl), rw zero_size refl)
          | inr some_size ↦ (
            done ++ (start, size) ∷ [],
            mem_tag-stores done b m t size start was cells is_size is_start lt lt' some_size
                has_room,
            rw some_size (
                filled-next done (start, size) more
                  (omega (arith, was.count, ltb→lt b.memcount reg_cells has_room))),
          )
        ]
        | inr full ↦ (
          done,
          skipped (rw full refl),
          (let is_full : length done ≡ 16 =
                omega (arith, was.count, was.room, ltb→ge b.memcount reg_cells full) in
              filled-full done more is_full ∙ sym (filled-full done _ is_full)),
        )
      ]
    where
      skipped :
          (not (ltb b.memcount reg_cells) || member m.ram t tag_mem32 "size" == 0) ≡ true
          → Collects regs before done m (mem_tag fdt fuel dtb regs t b m)
      skipped skip = record {
        banks = b;
        ram = m.ram;
        returns = mem_tag-skipped fdt fuel regs dtb t 1 b m cells skip;
        collected = was;
      }
