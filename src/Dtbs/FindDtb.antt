-- ===== src/Dtbs/FindDtb.antt =====
-- find_dtb of dtbs.c against a chain of device trees.
use pxa_impedance_matcher.Base.{
  ℕ, zero, suc, ◌+◌, ◌-◌, ◌%◌, ◌^◌, ◌≤◌, ◌<◌, ◌≡◌, refl, ap, ◌≢◌, inl, inr, List, [], ◌∷◌, ◌++◌,
  arith, ne→==, length, All, done, out_of_fuel, View, Holds, IsBytes, IsChars,
}
use pxa_impedance_matcher.Fdt.Header.{fdt_magic, header_magic, header_totalsize}
use pxa_impedance_matcher.Dtbs.{Dtb, next_dtb, find_dtb}
use pxa_impedance_matcher.Dtbs.FindStr.{Occurs, find_str-Decides}

abbrev pub dtb : ℕ → ℕ → Dtb
dtb a s = record { addr = a; size = s }

-- From `d` on stand the trees `bs`, one behind the other, and then something else.
pub data Chain (ram : View) : ℕ → List Dtb → Type 0 where
  end : {d : ℕ} → header_magic ram d ≢ fdt_magic → Chain ram d []
  link :
      {d : ℕ} {bs : List Dtb}
      → header_magic ram d ≡ fdt_magic
      → Chain ram (next_dtb d (header_totalsize ram d)) bs
      → Chain ram d (dtb d (header_totalsize ram d) ∷ bs)

-- The tree ends inside the address space, and above the length of the string.
abbrev pub Fits : List ℕ → Dtb → Type 0
Fits xs b = (length xs + 1 ≤ b.addr + b.size) × (b.addr + b.size < 2 ^ 32)

-- The string stands in the tree, before the last place at which it would fit.
abbrev pub Names : View → List ℕ → Dtb → Type 0
Names ram xs b = Occurs ram b.addr (b.size - (length xs + 1)) xs

-- The first of the trees that names the string, or NULL and 0 if none does.
pub data FirstNaming (ram : View) (xs : List ℕ) (bs : List Dtb) (r : Dtb) : Type 0 where
  nowhere : r ≡ dtb 0 0 → All (λ b. ¬ Names ram xs b) bs → FirstNaming ram xs bs r
  found :
      (before after : List Dtb)
      → bs ≡ before ++ r ∷ after
      → All (λ b. ¬ Names ram xs b) before
      → Names ram xs r
      → FirstNaming ram xs bs r

FirstNaming-later :
    (ram : View) (xs : List ℕ) (b : Dtb) (bs : List Dtb) (r : Dtb)
    → ¬ Names ram xs b
    → FirstNaming ram xs bs r
    → FirstNaming ram xs (b ∷ bs) r
FirstNaming-later ram xs b bs r miss (nowhere e none_there) = nowhere e (miss, none_there)
FirstNaming-later ram xs b bs r miss (found before after e others there) =
    found (b ∷ before) after (ap (λ l. b ∷ l) e) (miss, others) there

module _ (ram : View) (bytes : IsBytes ram) (w : View) (compat : ℕ) (xs : List ℕ)
    (text : Holds w compat xs) (chars : IsChars xs) (f : ℕ) (fuel : length xs < f) where
  -- The search from `d` on returns the first of the trees.
  abbrev pub Finds : ℕ → ℕ → List Dtb → Type 0
  Finds k d bs = (r : Dtb) × (find_dtb f k ram d w compat ≡ done r) × FirstNaming ram xs bs r

  -- The tree at `d` is returned, or the search goes on behind it.
  Finds-link :
      (k d : ℕ) (bs : List Dtb)
      → header_magic ram d ≡ fdt_magic
      → Fits xs (dtb d (header_totalsize ram d))
      → Finds k (next_dtb d (header_totalsize ram d)) bs
      → Finds (suc k) d (dtb d (header_totalsize ram d) ∷ bs)
  unfolding find_dtb
  Finds-link k d bs magic fit (r, e, first) =
      let size = header_totalsize ram d in
      let (n, searched, decides) =
        find_str-Decides ram bytes w compat xs text chars f d size fuel fit.0 fit.1 in
      elim decides [
        | inl (one, there) ↦ (dtb d size, rw (magic, searched, one), found [] bs refl tt there)
        | inr (zero', miss) ↦ (
          r,
          rw (magic, searched, zero') e,
          FirstNaming-later ram xs (dtb d size) bs r miss first,
        )
      ]

  -- On a chain of trees that each fit the search, with fuel for each, find_dtb ends and returns
  -- the first that names the string, with its size, or NULL and 0 if none of them does.
  pub find_dtb-FirstNaming :
      (k d : ℕ) (bs : List Dtb)
      → Chain ram d bs
      → All (Fits xs) bs
      → length bs < k
      → (r : Dtb) × (find_dtb f k ram d w compat ≡ done r) × FirstNaming ram xs bs r
  unfolding find_dtb
  find_dtb-FirstNaming zero d bs chain fit enough = absurd (omega arith)
  find_dtb-FirstNaming (suc k) d bs (end {d = d'} other) fit enough =
      (dtb 0 0, rw (ne→== (header_magic ram d') fdt_magic other), nowhere refl tt)
  find_dtb-FirstNaming (suc k) d bs (link {d = d'} {bs = rest} magic chain) fit enough =
      Finds-link k d' rest magic fit.0 (
        find_dtb-FirstNaming k (next_dtb d' (header_totalsize ram d')) rest chain fit.1
          (omega arith))

  next_dtb-zero : (d : ℕ) → d % 4 ≡ 0 → d + 4 < 2 ^ 32 → next_dtb d 0 ≡ d
  unfolding next_dtb
  next_dtb-zero d aligned low = omega arith

  -- A tree at an aligned address whose header says that it has no bytes stops the search: find_dtb
  -- goes on at the same tree, and no fuel is enough.
  pub find_dtb-zero_size :
      (k d : ℕ)
      → header_magic ram d ≡ fdt_magic
      → header_totalsize ram d ≡ 0
      → d % 4 ≡ 0
      → d + 4 < 2 ^ 32
      → length xs + 1 ≤ d
      → find_dtb f k ram d w compat ≡ out_of_fuel
  unfolding find_dtb
  find_dtb-zero_size zero d magic empty aligned low above = refl
  find_dtb-zero_size (suc k) d magic empty aligned low above =
      let same : next_dtb d (header_totalsize ram d) ≡ d = rw empty (next_dtb-zero d aligned low) in
      let (n, searched, decides) =
        find_str-Decides ram bytes w compat xs text chars f d (header_totalsize ram d) fuel
          (omega arith) (omega arith) in
      elim decides [
        | inl (one, (i, lt, h)) ↦ absurd (omega arith)
        | inr (zero', miss) ↦
            rw (magic, searched, zero', same) (find_dtb-zero_size k d magic empty aligned low above)
      ]
