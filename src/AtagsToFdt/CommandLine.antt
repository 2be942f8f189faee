-- ===== src/AtagsToFdt/CommandLine.antt =====
-- The buffer of merge_fdt_bootargs in libfdt/atags_to_fdt.c.
use pxa_impedance_matcher.Base.{
  ℕ, ◌+◌, ◌-◌, ◌≤◌, ◌<◌, ◌≡◌, ◌≢◌, refl, ap, ◌∙◌, ◌⊎◌, inl, inr, List, [], ◌∷◌, arith, ltb,
  Bool-cases, ltb→lt, ne→==, View, length, Holds,
}
use pxa_impedance_matcher.Str.Length.{strlen_lem}
use pxa_impedance_matcher.Ram.{store, memcpy}
use pxa_impedance_matcher.Ram.Area.{Keeps, Keeps-trans, store-Keeps, memcpy-Keeps}
use pxa_impedance_matcher.Machine.{Machine, Run, ok, and_then, Cmd, ◌>>=◌, get_ram, set_ram}
use pxa_impedance_matcher.Fdt.{Fdt, Property, value, missing}
use pxa_impedance_matcher.AtagsToFdt.{
  command_line_size, copy_bootargs, append_cmdline, fill_cmdline,
}

-- A property that was found has at least the NUL of its string.
abbrev pub HasNul : Property → Type 0
HasNul (missing _) = Unit
HasNul (value val len) = 0 < len

-- The buffer's bytes.
abbrev pub KeepsOthers : ℕ → View → View → Type 0
KeepsOthers cmdline = Keeps cmdline (cmdline + command_line_size)

-- A part of the text is in the buffer, with room for the NUL, and nothing else is written.
record Filled (cmdline : ℕ) (m : Machine) (r : Run ℕ) : Type 0 where
  ptr : ℕ
  ram : View
  returns : r ≡ ok ptr (record m { ram = ram })
  above : cmdline ≤ ptr
  room : ptr + 1 < cmdline + command_line_size
  keeps : KeepsOthers cmdline m.ram ram

-- A string outside the area is as it was.
pub Keeps-Holds :
    {lo hi : ℕ} {ram out : View} (p : ℕ) (xs : List ℕ)
    → Keeps lo hi ram out
    → (p + length xs < lo) ⊎ (hi ≤ p)
    → Holds ram p xs
    → Holds out p xs
Keeps-Holds p [] keeps apart e = keeps p (omega arith) ∙ e
Keeps-Holds p (x ∷ xs) keeps apart (e, pos, h) =
    (keeps p (omega arith) ∙ e, pos, Keeps-Holds (p + 1) xs keeps (omega arith) h)

module _ (fdt : Fdt) (fuel cmdline : ℕ) where
  copy_bootargs-Filled :
      (bootargs : Property) (m : Machine)
      → HasNul bootargs
      → Filled cmdline m (copy_bootargs fdt fuel cmdline bootargs m)
  unfolding copy_bootargs
  copy_bootargs-Filled (missing _) m nul = record {
    ptr = cmdline;
    ram = m.ram;
    returns = refl;
    above = omega arith;
    room = omega arith;
    keeps = λ a o. refl;
  }
  copy_bootargs-Filled (value val len) m nul = elim (Bool-cases (ltb len command_line_size)) [
    | inl lt ↦ record {
      ptr = cmdline + len - 1;
      ram = memcpy m.ram cmdline val len;
      returns = rw lt refl;
      above = omega arith;
      room = omega (arith, ltb→lt len command_line_size lt);
      keeps =
          memcpy-Keeps cmdline (cmdline + command_line_size) m.ram cmdline val len (omega arith)
            (omega (arith, ltb→lt len command_line_size lt));
    }
    | inr over ↦ record {
      ptr = cmdline;
      ram = m.ram;
      returns = rw over refl;
      above = omega arith;
      room = omega arith;
      keeps = λ a o. refl;
    }
  ]

  append_cmdline-Filled :
      (ptr text : ℕ) (xs : List ℕ) (m : Machine)
      → cmdline ≤ ptr
      → ptr + 1 < cmdline + command_line_size
      → Holds m.ram text xs
      → length xs < fuel
      → Filled cmdline m (append_cmdline fdt fuel cmdline ptr text m)
  unfolding append_cmdline
  append_cmdline-Filled ptr text xs m above room h enough =
      rw (strlen_lem fuel m.ram text xs h enough)
        (elim (Bool-cases (ltb (ptr + (length xs + 1) + 2) (cmdline + command_line_size))) [
          | inl lt ↦ record {
            ptr = ptr + 1 + (length xs + 1);
            ram = memcpy (store m.ram ptr 0x20) (ptr + 1) text (length xs + 1);
            returns = rw lt refl;
            above = omega arith;
            room = omega (arith, ltb→lt _ _ lt);
            keeps =
                Keeps-trans
                  (store-Keeps cmdline (cmdline + command_line_size) m.ram ptr 0x20 above
                    (omega arith))
                  (memcpy-Keeps cmdline (cmdline + command_line_size) (store m.ram ptr 0x20)
                    (ptr + 1) text (length xs + 1) (omega arith) (omega (arith, ltb→lt _ _ lt)));
          }
          | inr over ↦ record {
            ptr = ptr;
            ram = m.ram;
            returns = rw over refl;
            above = above;
            room = room;
            keeps = λ a o. refl;
          }
        ])

  -- merge_fdt_bootargs fills its buffer without a write outside it, where the property has at least
  -- a NUL and the tag's string, within the fuel, stands outside the buffer.
  pub fill_cmdline-KeepsOthers :
      (bootargs : Property) (text : ℕ) (xs : List ℕ) (m : Machine)
      → HasNul bootargs
      → text ≢ 0
      → Holds m.ram text xs
      → length xs < fuel
      → (text + length xs < cmdline) ⊎ (cmdline + command_line_size ≤ text)
      → (ram : View) × (fill_cmdline fdt fuel cmdline bootargs text m
          ≡ ok tt (record m { ram = ram }))
        × KeepsOthers cmdline m.ram ram
  unfolding fill_cmdline
  fill_cmdline-KeepsOthers bootargs text xs m nul given h enough apart = (
    store appended.ram appended.ptr 0,
    rw (ne→== text 0 given) (
        ap (λ r. and_then r λ ptr. append_cmdline fdt fuel cmdline ptr text >>= terminate)
          copied.returns
        ∙ ap (λ r. and_then r terminate) appended.returns),
    Keeps-trans (Keeps-trans copied.keeps appended.keeps) (
        store-Keeps cmdline (cmdline + command_line_size) appended.ram appended.ptr 0 appended.above
          (omega (arith, appended.room))),
  )
    where
      copied : Filled cmdline m (copy_bootargs fdt fuel cmdline bootargs m)
      copied = copy_bootargs-Filled bootargs m nul

      appended :
          Filled cmdline
            (record m { ram = copied.ram })
            (append_cmdline fdt fuel cmdline copied.ptr text (record m { ram = copied.ram }))
      appended =
          append_cmdline-Filled copied.ptr text xs (record m { ram = copied.ram }) copied.above
            copied.room (Keeps-Holds text xs copied.keeps apart h) enough

      terminate : ℕ → Cmd (Unit {0})
      terminate ptr = do ram ← get_ram; set_ram (store ram ptr 0)
