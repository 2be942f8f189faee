-- ===== src/Fdt/Cells.antt =====
-- The inline functions of libfdt/libfdt.h that build on fdt_setprop, against their documentation.
use pxa_impedance_matcher.Base.{
  ◌+◌, suc, ap, ap₂, ◌∙◌, [], ◌∷◌, ◌++◌, length, Holds, ℕ, ◌^◌, ◌<◌, ◌≡◌, List, arith, View,
}
use pxa_impedance_matcher.Base.Int.{ℤ, pos}
use pxa_impedance_matcher.Endian.{store32, cpu_to_fdt32}
use pxa_impedance_matcher.Ram.{store}
use pxa_impedance_matcher.Fdt.{Fdt, big_endian, setprop_u32}
use pxa_impedance_matcher.Fdt.Contract.{
  bytes_of, big_endian_bytes, Sets, set, failed, SetpropContract, SetpropU32Contract,
}

-- The bytes of `tmp`.
pub bytes_of-big_endian :
    (val : ℕ) → val < 2 ^ 32 → bytes_of (big_endian val) 0 4 ≡ big_endian_bytes val
unfolding big_endian store32 store cpu_to_fdt32
bytes_of-big_endian val lt = ground arith

-- For a number of 32 bits, and where fdt_setprop keeps its contract for the four bytes that it is
-- given, fdt_setprop_u32 keeps its own: the property is the number with its high byte first.
pub setprop_u32-SetpropU32Contract :
    (fdt : Fdt) (ram : View) (dtb : ℕ) (off : ℤ) (path name : List ℕ) (val : ℕ)
    → val < 2 ^ 32
    → SetpropContract fdt ram dtb path name
        (bytes_of (big_endian val) 0 4)
        (fdt.setprop ram dtb off name (big_endian val) 0 4)
    → SetpropU32Contract fdt ram dtb path name val (setprop_u32 fdt ram dtb off name val)
unfolding setprop_u32
setprop_u32-SetpropU32Contract fdt ram dtb off path name val lt keeps =
    rw (bytes_of-big_endian val lt) at keeps

-- A call that returned 0 has set its property.
pub setprop-Sets :
    {fdt : Fdt} {ram : View} {dtb : ℕ} {path name bytes : List ℕ} {r : View × ℤ}
    → SetpropContract fdt ram dtb path name bytes r
    → r.1 ≡ pos 0
    → Sets fdt ram dtb path name bytes r.0
setprop-Sets (set done zero') e = done
setprop-Sets (failed err listed f) e = cc

-- A string with its NUL and the byte behind it.
pub bytes_of-Holds :
    (v : View) (p : ℕ) (xs : List ℕ)
    → Holds v p xs
    → bytes_of v p (suc (suc (length xs))) ≡ xs ++ 0 ∷ v (p + length xs + 1) ∷ []
bytes_of-Holds v p [] e = ap₂ (λ a b. a ∷ b ∷ []) e (ap v (omega arith))
bytes_of-Holds v p (x ∷ xs) (e, above, h) =
    ap₂ (λ a l. a ∷ l) e
      (bytes_of-Holds v (p + 1) xs h ∙ ap (λ q. xs ++ 0 ∷ v q ∷ []) (omega arith))
