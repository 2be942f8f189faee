-- ===== src/AtagsToFdt/Errors.antt =====
-- What the setters of libfdt/atags_to_fdt.c return, where libfdt returns what is documented of it.
use pxa_impedance_matcher.Base.{
  ℕ, ◌≡◌, refl, inl, inr, true, List, [], ◌∷◌, ◌++◌, arith, Bool-cases, View,
}
use pxa_impedance_matcher.Base.Int.{ℤ, pos, negsuc}
use pxa_impedance_matcher.Machine.{Machine, Run, ok, Cmd}
use pxa_impedance_matcher.Fdt.{Fdt, Property, missing, big_endian, setprop_u32}
use pxa_impedance_matcher.Fdt.Errors.{Error, notfound, IsOneOf}
use pxa_impedance_matcher.Fdt.Contract.{
  OffsetOr, ZeroOr, PathOffsetContract, AddSubnodeContract, GetpropContract, path_offset_errors,
  add_subnode_errors, setprop_errors,
}
use pxa_impedance_matcher.AtagsToFdt.Access.{
  is_notfound, node_offset, with_node, setprop, setprop_cell, getprop,
}

IsOneOf-left : (e : Error) (xs ys : List Error) → IsOneOf e xs → IsOneOf e (xs ++ ys)
IsOneOf-left e [] ys h = absurd h
IsOneOf-left e (x ∷ xs) ys (inl h) = inl h
IsOneOf-left e (x ∷ xs) ys (inr h) = inr (IsOneOf-left e xs ys h)

IsOneOf-right : (e : Error) (xs ys : List Error) → IsOneOf e ys → IsOneOf e (xs ++ ys)
IsOneOf-right e [] ys h = h
IsOneOf-right e (x ∷ xs) ys h = inr (IsOneOf-right e xs ys h)

OffsetOr-left : (xs ys : List Error) (r : ℤ) → OffsetOr xs r → OffsetOr (xs ++ ys) r
OffsetOr-left xs ys r (OffsetOr.offset n e) = OffsetOr.offset n e
OffsetOr-left xs ys r (OffsetOr.failed e listed f) =
    OffsetOr.failed e (IsOneOf-left e xs ys listed) f

OffsetOr-right : (xs ys : List Error) (r : ℤ) → OffsetOr ys r → OffsetOr (xs ++ ys) r
OffsetOr-right xs ys r (OffsetOr.offset n e) = OffsetOr.offset n e
OffsetOr-right xs ys r (OffsetOr.failed e listed f) =
    OffsetOr.failed e (IsOneOf-right e xs ys listed) f

ZeroOr-right : (xs ys : List Error) (r : ℤ) → ZeroOr ys r → ZeroOr (xs ++ ys) r
ZeroOr-right xs ys r (ZeroOr.success e) = ZeroOr.success e
ZeroOr-right xs ys r (ZeroOr.failed e listed f) = ZeroOr.failed e (IsOneOf-right e xs ys listed) f

-- The errors of node_offset, and of a setter.
abbrev pub node_errors : List Error
node_errors = path_offset_errors ++ add_subnode_errors

abbrev pub setter_errors : List Error
setter_errors = node_errors ++ setprop_errors

-- A step that returns a number of which `P` holds.
abbrev pub Returns : (ℤ → Type 0) → Run ℤ → Type 0
Returns P r = (a : ℤ) × (m : Machine) × (r ≡ ok a m) × P a

module _ (fdt : Fdt) (fuel : ℕ) (dtb : ℕ) (path : List ℕ) where
  node_offset-OffsetOr :
      (m : Machine)
      → PathOffsetContract (fdt.path_offset m.ram dtb path)
      → AddSubnodeContract (fdt.add_subnode m.ram dtb (pos 0) path).1
      → Returns (OffsetOr node_errors) (node_offset fdt fuel dtb path m)
  unfolding node_offset
  node_offset-OffsetOr m found added =
      let off = fdt.path_offset m.ram dtb path in
      let (ram, sub) = fdt.add_subnode m.ram dtb (pos 0) path in
      elim (Bool-cases (is_notfound off)) [
        | inl none_there ↦ (
          sub,
          record m { ram = ram },
          rw none_there,
          OffsetOr-right path_offset_errors add_subnode_errors sub added,
        )
        | inr there ↦
            (off, m, rw there, OffsetOr-left path_offset_errors add_subnode_errors off found)
      ]

  with_node-ZeroOr :
      (set : ℤ → Cmd ℤ) (m : Machine)
      → PathOffsetContract (fdt.path_offset m.ram dtb path)
      → AddSubnodeContract (fdt.add_subnode m.ram dtb (pos 0) path).1
      → ((n : ℕ) (m' : Machine) → Returns (ZeroOr setprop_errors) (set (pos n) m'))
      → Returns (ZeroOr setter_errors) (with_node fdt fuel dtb path set m)
  unfolding with_node
  with_node-ZeroOr set m found added sets = answer (node_offset-OffsetOr m found added)
    where
      answer :
          Returns (OffsetOr node_errors) (node_offset fdt fuel dtb path m)
          → Returns (ZeroOr setter_errors) (with_node fdt fuel dtb path set m)
      answer (off, m', e, OffsetOr.offset n is) =
          let (r, after, returns, zero_or) = sets n m' in
          (r, after, rw (e, is) returns, ZeroOr-right node_errors setprop_errors r zero_or)
      answer (off, m', e, OffsetOr.failed err listed is) = (
        off,
        m',
        rw (e, is),
        ZeroOr.failed err (IsOneOf-left err node_errors setprop_errors listed) is,
      )

module _ (fdt : Fdt) (fuel : ℕ) (dtb : ℕ) (path name : List ℕ) where
  -- Where fdt_path_offset, fdt_add_subnode and fdt_setprop return what is documented of them, setprop
  -- and setprop_cell return too: 0, or an error that is documented of one of the three.
  pub setters-ZeroOr :
      (val size cell : ℕ) (m : Machine)
      → PathOffsetContract (fdt.path_offset m.ram dtb path)
      → AddSubnodeContract (fdt.add_subnode m.ram dtb (pos 0) path).1
      → ((ram v : View) (n a len : ℕ)
          → ZeroOr setprop_errors (fdt.setprop ram dtb (pos n) name v a len).1)
      → Returns (ZeroOr setter_errors) (setprop fdt fuel dtb path name val size m)
        × Returns (ZeroOr setter_errors) (setprop_cell fdt fuel dtb path name cell m)
  unfolding setprop setprop_cell setprop_u32
  setters-ZeroOr val size cell m found added answers = (
    with_node-ZeroOr fdt fuel dtb path _ m found added λ n m'. (
      (fdt.setprop m'.ram dtb (pos n) name m'.ram val size).1,
      record m' { ram = (fdt.setprop m'.ram dtb (pos n) name m'.ram val size).0 },
      refl,
      answers m'.ram m'.ram n val size,
    ),
    with_node-ZeroOr fdt fuel dtb path _ m found added λ n m'. (
      (fdt.setprop m'.ram dtb (pos n) name (big_endian cell) 0 4).1,
      record m' { ram = (fdt.setprop m'.ram dtb (pos n) name (big_endian cell) 0 4).0 },
      refl,
      answers m'.ram (big_endian cell) n 0 4,
    ),
  )

  -- Where fdt_path_offset and fdt_getprop return what is documented of them, getprop returns a value
  -- or an error as fdt_getprop does, with the RAM unchanged: a node that is not there is the error
  -- -FDT_ERR_NOTFOUND.
  pub getprop-GetpropContract :
      (m : Machine)
      → PathOffsetContract (fdt.path_offset m.ram dtb path)
      → ((off : ℤ) → GetpropContract (fdt.getprop m.ram dtb off name))
      → (q : Property) × (getprop fdt fuel dtb path name m ≡ Run.ok q m) × GetpropContract q
  unfolding getprop
  getprop-GetpropContract m found gets =
      let off = fdt.path_offset m.ram dtb path in
      elim (Bool-cases (is_notfound off)) [
        | inl none_there ↦ (missing off, rw none_there, not_there off none_there)
        | inr there ↦ (fdt.getprop m.ram dtb off name, rw there, gets off)
      ]
    where
      not_there : (off : ℤ) → is_notfound off ≡ true → GetpropContract (missing off)
      not_there (pos n) e = cc
      not_there (negsuc n) e = GetpropContract.null notfound (inl refl) (ground arith)
