-- ===== src/Tests/SmallFdt.antt =====
-- A small library for device trees that keeps the contract on the calls of the fixups.
use pxa_impedance_matcher.Base.{
  ◌≢◌, ◌⊎◌, ℕ, ◌+◌, ◌≡◌, refl, inl, inr, Bool, true, false, ◌&&◌, Option, none, some, List, [], ◌∷◌,
  arith, ◌==◌, if◌then◌else◌, Bool-cases, codes, View,
}
use pxa_impedance_matcher.Base.Int.{ℤ, pos, negsuc}
use pxa_impedance_matcher.Ram.{store}
use pxa_impedance_matcher.Fdt.{Fdt, Property, value, missing}
use pxa_impedance_matcher.Fdt.Contract.{bytes_of, content}

abbrev pub same : List ℕ → List ℕ → Bool
same [] [] = true
same [] (y ∷ ys) = false
same (x ∷ xs) [] = false
same (x ∷ xs) (y ∷ ys) = x == y && same xs ys

pub same→eq : (xs ys : List ℕ) → same xs ys ≡ true → xs ≡ ys
same→eq [] [] e = refl
same→eq [] (y ∷ ys) e = cc
same→eq (x ∷ xs) [] e = cc
same→eq (x ∷ xs) (y ∷ ys) e = ground (arith, same→eq xs ys)

-- The bytes at `a` and on.
abbrev pub fill : View → ℕ → List ℕ → View
fill ram a [] = ram
fill ram a (x ∷ xs) = store (fill ram (a + 1) xs) a x

-- A tree has hw-revision in the root and bootargs in /chosen, the latter behind its length.
abbrev pub small_path_offset : View → ℕ → List ℕ → ℤ
small_path_offset ram dtb path =
    if same path (codes "/")
    then pos 0
    else (if same path (codes "/chosen") then pos 8 else negsuc 0)

abbrev pub small_getprop : View → ℕ → ℤ → List ℕ → Property
small_getprop ram dtb (pos off) name =
    if off == 0 && same name (codes "hw-revision")
    then value (dtb + 32) 4
    else (if off == 8 && same name (codes "bootargs")
        then value (dtb + 64) (ram (dtb + 63))
        else missing (negsuc 0))
small_getprop ram dtb (negsuc n) name = missing (negsuc 3)

abbrev pub small_setprop : View → ℕ → ℤ → List ℕ → View → ℕ → ℕ → View × ℤ
small_setprop ram dtb (pos off) name v val len =
    if off == 0 && same name (codes "hw-revision")
    then (fill ram (dtb + 32) (bytes_of v val 4), pos 0)
    else (if off == 8 && same name (codes "bootargs")
        then (fill (store ram (dtb + 63) len) (dtb + 64) (bytes_of v val len), pos 0)
        else (ram, negsuc 2))
small_setprop ram dtb (negsuc n) name v val len = (ram, negsuc 3)

abbrev pub small : Fdt
small = record {
  path_offset = small_path_offset;
  getprop = small_getprop;
  setprop = small_setprop;
  add_subnode = λ ram d off name. (ram, negsuc 2);
  open_into = λ ram d buf size. (ram, pos 0);
  pack = λ ram d. (ram, pos 0);
}

-- What a tree of the library says.
abbrev pub said : View → ℕ → List ℕ → List ℕ → Option (List ℕ)
said ram dtb path name =
    if same path (codes "/")
    then (if same name (codes "hw-revision") then some (bytes_of ram (dtb + 32) 4) else none)
    else (if same path (codes "/chosen")
        then (if same name (codes "bootargs")
            then some (bytes_of ram (dtb + 64) (ram (dtb + 63)))
            else none)
        else none)

pub small-said :
    (ram : View) (dtb : ℕ) (path name : List ℕ)
    → content small ram dtb path name ≡ said ram dtb path name
small-said ram dtb path name = elim (Bool-cases (same path (codes "/"))) [
  | inl root ↦ elim (Bool-cases (same name (codes "hw-revision"))) [
    | inl hw ↦ rw (root, hw)
    | inr other ↦ rw (root, other)
  ]
  | inr below ↦ elim (Bool-cases (same path (codes "/chosen"))) [
    | inl chosen ↦ elim (Bool-cases (same name (codes "bootargs"))) [
      | inl args ↦ rw (below, chosen, args)
      | inr other ↦ rw (below, chosen, other)
    ]
    | inr nowhere ↦ rw (below, nowhere)
  ]
]

-- Where hw-revision is as it was, nothing but bootargs says something else.
pub args_others :
    (ram out : View) (dtb : ℕ)
    → bytes_of out (dtb + 32) 4 ≡ bytes_of ram (dtb + 32) 4
    → (path name : List ℕ) → (small_path_offset ram dtb path ≢ pos 8) ⊎ (name ≢ codes "bootargs")
    → said out dtb path name ≡ said ram dtb path name
args_others ram out dtb kept path name differs = elim (Bool-cases (same path (codes "/"))) [
  | inl root ↦ rw (root, kept)
  | inr below ↦ elim (Bool-cases (same path (codes "/chosen"))) [
    | inl chosen ↦ elim (Bool-cases (same name (codes "bootargs"))) [
      | inl args ↦ absurd (elim differs [
        | inl off ↦ off (rw (below, chosen))
        | inr other ↦ other (same→eq name (codes "bootargs") args)
      ])
      | inr other ↦ rw (below, chosen, other)
    ]
    | inr nowhere ↦ rw (below, nowhere)
  ]
]

-- Where bootargs is as it was, nothing but hw-revision says something else.
pub revision_others :
    (ram out : View) (dtb : ℕ)
    → bytes_of out (dtb + 64) (out (dtb + 63)) ≡ bytes_of ram (dtb + 64) (ram (dtb + 63))
    → (path name : List ℕ) → (small_path_offset ram dtb path ≢ pos 0) ⊎ (name ≢ codes "hw-revision")
    → said out dtb path name ≡ said ram dtb path name
revision_others ram out dtb kept path name differs = elim (Bool-cases (same path (codes "/"))) [
  | inl root ↦ elim (Bool-cases (same name (codes "hw-revision"))) [
    | inl hw ↦ absurd (elim differs [
      | inl off ↦ off (rw root)
      | inr other ↦ other (same→eq name (codes "hw-revision") hw)
    ])
    | inr other ↦ rw (root, other)
  ]
  | inr below ↦ rw (below, kept)
]
