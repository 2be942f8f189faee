-- ===== src/AtagsToFdt/Bootargs.antt =====
-- The two command lines that merge_fdt_bootargs of libfdt/atags_to_fdt.c joins.
use pxa_impedance_matcher.Base.{
  ℕ, suc, ◌+◌, ◌-◌, ◌≤◌, ◌<◌, ◌≡◌, ◌≢◌, refl, ap, ◌∙◌, ◌⊎◌, List, [], ◌∷◌, ◌++◌, arith, lt→ltb,
  ne→==, View, length, length-append, Holds,
}
use pxa_impedance_matcher.Str.Length.{strlen_lem}
use pxa_impedance_matcher.Ram.{store, memcpy}
use pxa_impedance_matcher.Ram.Area.{Keeps-trans, store-Keeps, memcpy-Keeps}
use pxa_impedance_matcher.Ram.Copy.{memcpy-Copied, store_self}
use pxa_impedance_matcher.Machine.{Machine, ok, and_then, Cmd, ◌>>=◌, get_ram, set_ram}
use pxa_impedance_matcher.Fdt.{Fdt, value}
use pxa_impedance_matcher.AtagsToFdt.{
  command_line_size, copy_bootargs, append_cmdline, fill_cmdline,
}
use pxa_impedance_matcher.AtagsToFdt.CommandLine.{Keeps-Holds}

-- A string that is moved.
Holds-moved :
    (ram out : View) (dest src : ℕ) (xs : List ℕ)
    → ((i : ℕ) → i < length xs + 1 → out (dest + i) ≡ ram (src + i))
    → Holds ram src xs
    → Holds out dest xs
Holds-moved ram out dest src [] moved h =
    ap out (omega arith) ∙ moved 0 (omega arith) ∙ ap ram (omega arith) ∙ h
Holds-moved ram out dest src (x ∷ xs) moved (e, above, h) = (
  ap out (omega arith) ∙ moved 0 (omega arith) ∙ ap ram (omega arith) ∙ e,
  above,
  Holds-moved ram out (dest + 1) (src + 1) xs
      (λ i lt.
        ap out {x = dest + 1 + i} {y = dest + suc i} (omega arith)
        ∙ moved (suc i) (omega arith)
        ∙ ap ram (omega arith))
      h,
)

-- A string with a byte in the place of its NUL, and a second string behind it.
Holds-join :
    (ram out : View) (p c : ℕ) (xs ys : List ℕ)
    → Holds ram p xs
    → ((i : ℕ) → i < length xs → out (p + i) ≡ ram (p + i))
    → out (p + length xs) ≡ c
    → 0 < c
    → Holds out (p + length xs + 1) ys
    → Holds out p (xs ++ c ∷ ys)
Holds-join ram out p c [] ys h same at above rest =
    (ap out (omega arith) ∙ at, above, (let e : p + 1 ≡ p + 0 + 1 = omega arith in rw e rest))
Holds-join ram out p c (x ∷ xs) ys (e, x_above, h) same at above rest = (
  ap out (omega arith) ∙ same 0 (omega arith) ∙ ap ram (omega arith) ∙ e,
  x_above,
  Holds-join ram out (p + 1) c xs ys h
      (λ i lt.
        ap out {x = p + 1 + i} {y = p + suc i} (omega arith)
        ∙ same (suc i) (omega arith)
        ∙ ap ram (omega arith))
      (ap out (omega arith) ∙ at) above
      (let e : p + 1 + length xs + 1 ≡ p + suc (length xs) + 1 = omega arith in rw e rest),
)

module _ (fdt : Fdt) (fuel cmdline : ℕ) where
  copy_bootargs-fits :
      (val n : ℕ) (m : Machine)
      → n + 1 < command_line_size
      → copy_bootargs fdt fuel cmdline (value val (n + 1)) m
        ≡ ok (cmdline + n) (record m { ram = memcpy m.ram cmdline val (n + 1) })
  unfolding copy_bootargs
  copy_bootargs-fits val n m lt =
      let e : cmdline + (n + 1) - 1 ≡ cmdline + n = omega arith in
      rw (lt→ltb (n + 1) command_line_size lt, e) refl

  append_cmdline-fits :
      (ptr text : ℕ) (ys : List ℕ) (m : Machine)
      → Holds m.ram text ys
      → length ys < fuel
      → ptr + (length ys + 1) + 2 < cmdline + command_line_size
      → append_cmdline fdt fuel cmdline ptr text m
        ≡ ok
            (ptr + 1 + (length ys + 1))
            (record m { ram = memcpy (store m.ram ptr 0x20) (ptr + 1) text (length ys + 1) })
  unfolding append_cmdline
  append_cmdline-fits ptr text ys m h enough fits =
      rw
        (
          strlen_lem fuel m.ram text ys h enough,
          lt→ltb (ptr + (length ys + 1) + 2) (cmdline + command_line_size) fits,
        )
        refl

  -- The RAM with the strings joined.
  abbrev pub joined : View → ℕ → ℕ → ℕ → ℕ → View
  joined ram val n text k =
      store
        (memcpy (store (memcpy ram cmdline val (n + 1)) (cmdline + n) 0x20) (cmdline + n + 1) text
          (k + 1))
        (cmdline + n + 1 + (k + 1)) 0

  pub fill_cmdline-joined :
      (val text : ℕ) (xs ys : List ℕ) (m : Machine)
      → text ≢ 0
      → Holds m.ram text ys
      → length ys < fuel
      → (text + length ys < cmdline) ⊎ (cmdline + command_line_size ≤ text)
      → length xs + length ys + 3 < command_line_size
      → fill_cmdline fdt fuel cmdline (value val (length xs + 1)) text m
        ≡ ok tt (record m { ram = joined m.ram val (length xs) text (length ys) })
  unfolding fill_cmdline
  fill_cmdline-joined val text xs ys m given h enough apart fits = rw (ne→== text 0 given) (
      ap (λ r. and_then r λ ptr. append_cmdline fdt fuel cmdline ptr text >>= terminate)
        (copy_bootargs-fits val (length xs) m (omega arith))
      ∙ ap (λ r. and_then r terminate)
          (append_cmdline-fits (cmdline + length xs) text ys
            (record m { ram = memcpy m.ram cmdline val (length xs + 1) })
            (Keeps-Holds text ys
              (memcpy-Keeps cmdline (cmdline + command_line_size) m.ram cmdline val (length xs + 1)
                (omega arith) (omega arith))
              apart h)
            enough (omega arith)))
    where
      terminate : ℕ → Cmd (Unit {0})
      terminate ptr = do ram ← get_ram; set_ram (store ram ptr 0)

  module _ (ram : View) (val text : ℕ) (xs ys : List ℕ) (old : Holds ram val xs)
      (new : Holds ram text ys)
      (old_apart : (val + length xs < cmdline) ⊎ (cmdline + command_line_size ≤ val))
      (new_apart : (text + length ys < cmdline) ⊎ (cmdline + command_line_size ≤ text))
      (fits : length xs + length ys + 3 < command_line_size) where
    copied : View
    copied = memcpy ram cmdline val (length xs + 1)

    blank : View
    unfolding copied
    blank = store copied (cmdline + length xs) 0x20

    both : View
    unfolding blank
    both = memcpy blank (cmdline + length xs + 1) text (length ys + 1)

    out : View
    unfolding both
    out = store both (cmdline + length xs + 1 + (length ys + 1)) 0

    new_there : Holds blank text ys
    unfolding blank copied
    new_there =
        Keeps-Holds text ys
          (Keeps-trans
            (memcpy-Keeps cmdline (cmdline + command_line_size) ram cmdline val (length xs + 1)
              (omega arith) (omega arith))
            (store-Keeps cmdline (cmdline + command_line_size) copied (cmdline + length xs) 0x20
              (omega arith) (omega arith)))
          new_apart new

    front : (i : ℕ) → i < length xs → out (cmdline + i) ≡ copied (cmdline + i)
    unfolding out both blank
    front i lt =
        Keeps-trans
          (store-Keeps lo hi copied (cmdline + length xs) 0x20 (omega arith) (omega arith))
          (Keeps-trans
            (memcpy-Keeps lo hi blank (cmdline + length xs + 1) text (length ys + 1) (omega arith)
              (omega arith))
            (store-Keeps lo hi both (cmdline + length xs + 1 + (length ys + 1)) 0 (omega arith)
              (omega arith)))
          (cmdline + i) (omega arith)
      where
        lo : ℕ
        lo = cmdline + length xs

        hi : ℕ
        hi = cmdline + length xs + length ys + 3

    blank_at : out (cmdline + length xs) ≡ 0x20
    unfolding out both blank
    blank_at =
        Keeps-trans
          (memcpy-Keeps (cmdline + length xs + 1) (cmdline + length xs + length ys + 3) blank
            (cmdline + length xs + 1) text (length ys + 1) (omega arith) (omega arith))
          (store-Keeps (cmdline + length xs + 1) (cmdline + length xs + length ys + 3) both
            (cmdline + length xs + 1 + (length ys + 1)) 0 (omega arith) (omega arith))
          (cmdline + length xs) (omega arith)
        ∙ store_self copied (cmdline + length xs) 0x20 (cmdline + length xs) refl

    -- The old command line, a blank and the new one, with a second NUL behind the first.
    pub joined-Holds :
        Holds (joined ram val (length xs) text (length ys)) cmdline (xs ++ 0x20 ∷ ys)
        × (joined ram val (length xs) text (length ys) (cmdline + length (xs ++ 0x20 ∷ ys) + 1) ≡ 0)
    unfolding out both blank copied
    joined-Holds = (
      Holds-join copied out cmdline 0x20 xs ys
          (Holds-moved ram copied cmdline val xs
            (memcpy-Copied ram cmdline val (length xs + 1) (omega arith)).inside old)
          front blank_at (omega arith)
          (Keeps-Holds (cmdline + length xs + 1) ys
            (store-Keeps (cmdline + length xs + 1 + (length ys + 1))
              (cmdline + length xs + length ys + 3) both (cmdline + length xs + 1 + (length ys + 1))
              0 (omega arith) (omega arith))
            (omega arith)
            (Holds-moved blank both (cmdline + length xs + 1) text ys
              (memcpy-Copied blank (cmdline + length xs + 1) text (length ys + 1)
                (omega arith)).inside
              new_there)),
      store_self both (cmdline + length xs + 1 + (length ys + 1)) 0 _
          (omega (arith, length-append xs (0x20 ∷ ys))),
    )
