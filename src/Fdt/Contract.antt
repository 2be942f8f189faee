-- ===== src/Fdt/Contract.antt =====
-- What libfdt/libfdt.h says of the functions that the program calls: their results, and what they do
-- to the content of a tree. Each contract is about one call.
use pxa_impedance_matcher.Base.{
  ◌++◌, ◌/◌, ◌%◌, ◌^◌, ℕ, zero, suc, ◌+◌, ◌≡◌, ◌≢◌, ◌⊎◌, Option, none, some, List, [], ◌∷◌,
  if◌then◌else◌, View,
}
use pxa_impedance_matcher.Base.Int.{ℤ, pos, is_neg}
use pxa_impedance_matcher.Fdt.{Fdt, Property, value, missing}
use pxa_impedance_matcher.Fdt.Errors.{
  Error, notfound, exists, nospace, badoffset, badpath, badlayout, failure, IsOneOf, standard,
}

abbrev pub bytes_of : View → ℕ → ℕ → List ℕ
bytes_of v a zero = []
bytes_of v a (suc n) = v a ∷ bytes_of v (a + 1) n

abbrev pub taken : View → Property → Option (List ℕ)
taken ram (value a n) = some (bytes_of ram a n)
taken ram (missing e) = none

module _ (fdt : Fdt) where
  -- What a tree says: the bytes of a property of the node at a path.
  abbrev pub content : View → ℕ → List ℕ → List ℕ → Option (List ℕ)
  content ram dtb path name =
      let off = fdt.path_offset ram dtb path in
      if is_neg off then none else taken ram (fdt.getprop ram dtb off name)

  -- The property has the value, and every property of another node or name has what it had.
  pub record Sets (ram : View) (dtb : ℕ) (path name bytes : List ℕ) (ram' : View) : Type 0 where
    pub now : content ram' dtb path name ≡ some bytes
    pub others :
        (path' name' : List ℕ)
        → (fdt.path_offset ram dtb path' ≢ fdt.path_offset ram dtb path) ⊎ (name' ≢ name)
        → content ram' dtb path' name' ≡ content ram dtb path' name'

  -- The tree says what it said.
  abbrev pub Same : View → View → ℕ → Type 0
  Same ram ram' dtb = (path name : List ℕ) → content ram' dtb path name ≡ content ram dtb path name

-- An offset (>= 0) on success, or an error.
pub data OffsetOr (errors : List Error) (r : ℤ) : Type 0 where
  offset : (n : ℕ) → r ≡ pos n → OffsetOr errors r
  failed : (e : Error) → IsOneOf e errors → r ≡ failure e → OffsetOr errors r

-- 0 on success, or an error.
pub data ZeroOr (errors : List Error) (r : ℤ) : Type 0 where
  success : r ≡ pos 0 → ZeroOr errors r
  failed : (e : Error) → IsOneOf e errors → r ≡ failure e → ZeroOr errors r

-- fdt_path_offset
abbrev pub path_offset_errors : List Error
path_offset_errors = badpath ∷ notfound ∷ standard

abbrev pub PathOffsetContract : ℤ → Type 0
PathOffsetContract r = OffsetOr path_offset_errors r

-- fdt_getprop: a pointer, or NULL and an error in *lenp.
abbrev pub getprop_errors : List Error
getprop_errors = notfound ∷ badoffset ∷ standard

pub data GetpropContract (r : Property) : Type 0 where
  got : (a n : ℕ) → r ≡ value a n → GetpropContract r
  null : (e : Error) → IsOneOf e getprop_errors → r ≡ missing (failure e) → GetpropContract r

-- fdt_setprop: 0 and the property is set or created, or an error.
abbrev pub setprop_errors : List Error
setprop_errors = nospace ∷ badoffset ∷ badlayout ∷ standard

pub data SetpropContract (fdt : Fdt) (ram : View) (dtb : ℕ) (path name bytes : List ℕ)
    (r : View × ℤ) : Type 0 where
  set :
      Sets fdt ram dtb path name bytes r.0
      → r.1 ≡ pos 0
      → SetpropContract fdt ram dtb path name bytes r
  failed :
      (e : Error)
      → IsOneOf e setprop_errors
      → r.1 ≡ failure e
      → SetpropContract fdt ram dtb path name bytes r

-- fdt_add_subnode: the offset of the created node, or an error.
abbrev pub add_subnode_errors : List Error
add_subnode_errors = notfound ∷ badoffset ∷ exists ∷ nospace ∷ badlayout ∷ standard

abbrev pub AddSubnodeContract : ℤ → Type 0
AddSubnodeContract r = OffsetOr add_subnode_errors r

-- fdt_setprop_u32: the property is the number in big-endian order.
abbrev pub big_endian_bytes : ℕ → List ℕ
big_endian_bytes val =
    (val / 2 ^ 24) ∷ (val / 2 ^ 16 % 2 ^ 8) ∷ (val / 2 ^ 8 % 2 ^ 8) ∷ (val % 2 ^ 8) ∷ []

abbrev pub SetpropU32Contract : Fdt → View → ℕ → List ℕ → List ℕ → ℕ → View × ℤ → Type 0
SetpropU32Contract fdt ram dtb path name val r =
    SetpropContract fdt ram dtb path name (big_endian_bytes val) r

-- fdt_setprop_string: the property is the string with its NUL.
abbrev pub SetpropStringContract : Fdt → View → ℕ → List ℕ → List ℕ → List ℕ → View × ℤ → Type 0
SetpropStringContract fdt ram dtb path name str r =
    SetpropContract fdt ram dtb path name (str ++ 0 ∷ []) r
