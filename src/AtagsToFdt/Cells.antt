-- ===== src/AtagsToFdt/Cells.antt =====
-- The cell size that libfdt/atags_to_fdt.c reads of a tree.
use pxa_impedance_matcher.Base.{
  Stores, ℕ, zero, suc, ◌+◌, ◌≤◌, ◌<◌, ◌≡◌, refl, ap, ◌∙◌, ◌⊎◌, inl, inr, Option, none, some, List,
  [], ◌∷◌, arith, codes, View,
}
use pxa_impedance_matcher.Base.Int.{pos}
use pxa_impedance_matcher.Machine.{Machine, ok}
use pxa_impedance_matcher.Endian.{load32, fdt32_to_cpu}
use pxa_impedance_matcher.Fdt.{Fdt, Property, value, missing}
use pxa_impedance_matcher.Fdt.Contract.{bytes_of, taken, content, Same}
use pxa_impedance_matcher.AtagsToFdt.Access.{getprop, get_cell_size}

-- The library reads of a tree what stands in its buffer in the RAM `ram`: another RAM with these bytes
-- has the same nodes at the same offsets, and the tree says the same.
pub record ReadsTree (fdt : Fdt) (dtb space : ℕ) (ram : View) : Type 0 where
  pub offsets :
      (out : View) (path : List ℕ)
      → ((a : ℕ) → dtb ≤ a → a < dtb + space → out a ≡ ram a)
      → fdt.path_offset out dtb path ≡ fdt.path_offset ram dtb path
  pub contents :
      (out : View) → ((a : ℕ) → dtb ≤ a → a < dtb + space → out a ≡ ram a) → Same fdt ram out dtb

-- #size-cells of the root is not there, or is 1.
abbrev pub OneCell : Option (List ℕ) → Type 0
OneCell c = (c ≡ none) ⊎ (c ≡ some (0 ∷ 0 ∷ 0 ∷ 1 ∷ []))

bytes_of-Stores : (ram : View) (v n : ℕ) (xs : List ℕ) → bytes_of ram v n ≡ xs → Stores ram v xs
bytes_of-Stores ram v zero [] e = tt
bytes_of-Stores ram v zero (x ∷ xs) e = absurd cc
bytes_of-Stores ram v (suc n) [] e = absurd cc
bytes_of-Stores ram v (suc n) (x ∷ xs) e = (cc, bytes_of-Stores ram (v + 1) n xs cc)

-- Four bytes of a tree as a number.
one_word :
    (ram : View) (v : ℕ) → Stores ram v (0 ∷ 0 ∷ 0 ∷ 1 ∷ []) → fdt32_to_cpu (load32 ram v) ≡ 1
unfolding load32 fdt32_to_cpu
one_word ram v h =
    let b2 : ram (v + 2) ≡ 0 = ap ram (omega arith) ∙ ((h.1).1).0 in
    let b3 : ram (v + 3) ≡ 1 = ap ram (omega arith) ∙ (((h.1).1).1).0 in
    rw (h.0, (h.1).0, b2, b3) refl

some_eq : (xs ys : List ℕ) → some xs ≡ some ys → xs ≡ ys
some_eq xs ys e = cc

pub get_cell_size-one :
    (fuel : ℕ) (fdt : Fdt) (dtb : ℕ) (m : Machine)
    → fdt.path_offset m.ram dtb (codes "/") ≡ pos 0
    → OneCell (content fdt m.ram dtb (codes "/") (codes "#size-cells"))
    → get_cell_size fdt fuel dtb m ≡ ok 1 m
unfolding get_cell_size getprop
get_cell_size-one fuel fdt dtb m root cell =
    let cell' = rw root at cell in
    rw root (ap (λ x. ok x m) (go (fdt.getprop m.ram dtb (pos 0) (codes "#size-cells")) cell'))
  where
    go :
        (q : Property)
        → OneCell (taken m.ram q)
        → elim q [ missing _ ↦ 1 | value val _ ↦ fdt32_to_cpu (load32 m.ram val) ] ≡ 1
    go (missing e) c = refl
    go (value v n) (inl e) = absurd cc
    go (value v n) (inr e) = one_word m.ram v (bytes_of-Stores m.ram v n _ (some_eq _ _ e))
