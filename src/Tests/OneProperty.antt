-- ===== src/Tests/OneProperty.antt =====
-- A small library for device trees with one property of one node: the number of its bytes, and then the
-- bytes.
use pxa_impedance_matcher.Base.{
  ℕ, zero, suc, ◌+◌, ◌%◌, ◌<◌, ◌≤◌, ◌≡◌, ◌≢◌, refl, sym, ap, ap₂, ◌∙◌, ◌⊎◌, inl, inr, ◌&&◌, Option,
  none, some, List, ◌∷◌, arith, codes, ◌==◌, if◌then◌else◌, Bool-cases, View,
}
use pxa_impedance_matcher.Base.Int.{ℤ, pos, negsuc}
use pxa_impedance_matcher.Ram.{store}
use pxa_impedance_matcher.Fdt.{Fdt, Property, value, missing}
use pxa_impedance_matcher.Fdt.Contract.{bytes_of, content, Sets}
use pxa_impedance_matcher.AtagsToFdt.Cells.{ReadsTree}
use pxa_impedance_matcher.Tests.SmallFdt.{same, same→eq, fill}

-- The value of the property.
abbrev pub value_of : View → ℕ → List ℕ
value_of ram dtb = bytes_of ram (dtb + 4) (ram dtb % 256)

module _ (node prop : List ℕ) where
  abbrev one_path_offset : View → ℕ → List ℕ → ℤ
  one_path_offset ram dtb path =
      if same path (codes "/") then pos 0 else (if same path node then pos 8 else negsuc 0)

  abbrev one_getprop : View → ℕ → ℤ → List ℕ → Property
  one_getprop ram dtb (pos off) name =
      if off == 8 && same name prop then value (dtb + 4) (ram dtb % 256) else missing (negsuc 0)
  one_getprop ram dtb (negsuc n) name = missing (negsuc 3)

  abbrev pub one_setprop : View → ℕ → ℤ → List ℕ → View → ℕ → ℕ → View × ℤ
  one_setprop ram dtb (pos off) name v val len =
      if off == 8 && same name prop
      then (fill (store ram dtb len) (dtb + 4) (bytes_of v val len), pos 0)
      else (ram, negsuc 2)
  one_setprop ram dtb (negsuc n) name v val len = (ram, negsuc 3)

  abbrev pub one_property : Fdt
  one_property = record {
    path_offset = one_path_offset;
    getprop = one_getprop;
    setprop = one_setprop;
    add_subnode = λ ram d off name. (ram, negsuc 2);
    open_into = λ ram d buf size. (ram, pos 0);
    pack = λ ram d. (ram, pos 0);
  }

  abbrev said : List ℕ → List ℕ → List ℕ → Option (List ℕ)
  said bytes path name =
      if same path (codes "/")
      then none
      else (if same path node then (if same name prop then some bytes else none) else none)

  one_property-said :
      (ram : View) (dtb : ℕ) (path name : List ℕ)
      → content one_property ram dtb path name ≡ said (value_of ram dtb) path name
  one_property-said ram dtb path name = elim (Bool-cases (same path (codes "/"))) [
    | inl root ↦ rw root
    | inr below ↦ elim (Bool-cases (same path node)) [
      | inl here ↦ elim (Bool-cases (same name prop)) [
        | inl hit ↦ rw (below, here, hit)
        | inr other ↦ rw (below, here, other)
      ]
      | inr nowhere ↦ rw (below, nowhere)
    ]
  ]

  -- Another name or node has nothing.
  said_other :
      (bytes path name : List ℕ)
      → (one_path_offset (λ a. 0) 0 path ≢ pos 8) ⊎ (name ≢ prop)
      → said bytes path name ≡ none
  said_other bytes path name other = elim (Bool-cases (same path (codes "/"))) [
    | inl root ↦ rw root
    | inr below ↦ elim (Bool-cases (same path node)) [
      | inl here ↦ elim (Bool-cases (same name prop)) [
        | inl hit ↦ elim other [
          | inl apart ↦ absurd (apart (rw (below, here) refl))
          | inr ne ↦ absurd (ne (same→eq name prop hit))
        ]
        | inr miss ↦ rw (below, here, miss)
      ]
      | inr nowhere ↦ rw (below, nowhere)
    ]
  ]

  -- What sets the property sets nothing else.
  pub one-Sets :
      (ram out : View) (dtb : ℕ) (bytes : List ℕ)
      → one_path_offset ram dtb node ≡ pos 8
      → content one_property out dtb node prop ≡ some bytes
      → Sets one_property ram dtb node prop bytes out
  one-Sets ram out dtb bytes at now = record {
    now = now;
    others = λ path name other.
        let other' = rw at at other in
        one_property-said out dtb path name
        ∙ said_other (value_of out dtb) path name other'
        ∙ sym (said_other (value_of ram dtb) path name other')
        ∙ sym (one_property-said ram dtb path name);
  }

  agree :
      (ram out : View) (a n : ℕ)
      → ((b : ℕ) → a ≤ b → b < a + n → out b ≡ ram b)
      → bytes_of out a n ≡ bytes_of ram a n
  agree ram out a zero h = refl
  agree ram out a (suc n) h =
      ap₂ ◌∷◌ (h a (omega arith) (omega arith))
        (agree ram out (a + 1) n (λ b above below. h b (omega arith) (omega arith)))

  pub one_property-ReadsTree : (ram : View) (dtb : ℕ) → ReadsTree one_property dtb 0x200 ram
  one_property-ReadsTree ram dtb = record {
    offsets = λ out path h. refl;
    contents = λ out h path name.
        one_property-said out dtb path name
        ∙ ap (λ l. said l path name)
            (ap (λ n. bytes_of out (dtb + 4) (n % 256)) (h dtb (omega arith) (omega arith))
              ∙ agree ram out (dtb + 4) (ram dtb % 256)
                  (λ a above below. h a (omega arith) (omega arith)))
        ∙ sym (one_property-said ram dtb path name);
  }
