-- ===== src/Str/Compare.antt =====
-- strncmp and memcmp of string.c.
use pxa_impedance_matcher.Base.{
  ℕ, zero, suc, ◌+◌, ◌<◌, ◌≡◌, ◌≢◌, ◌↔◌, ◌⊎◌, inl, inr, ◌∙◌, refl, sym, ap, ap₂, List, [], ◌∷◌,
  arith, length, take, ltb, ◌==◌, if◌then◌else◌, Bool-cases, ==→eq, ==→ne, View, u8, Holds, Stores,
  All, IsBytes, IsChars,
}
use pxa_impedance_matcher.Base.Int.{ℤ, pos, negsuc, sub_ℕ}
use pxa_impedance_matcher.Str.{strncmp, memcmp}

-- The order of the dictionary on byte strings: -1, 0 or 1.
unfoldable pub lex : List ℕ → List ℕ → ℤ
lex [] [] = pos 0
lex [] (y ∷ ys) = negsuc 0
lex (x ∷ xs) [] = pos 1
lex (x ∷ xs) (y ∷ ys) = if x == y then lex xs ys else (if ltb x y then negsuc 0 else pos 1)

u8-id : (x : ℕ) → x < 256 → u8 x ≡ x
u8-id x h = omega arith

pub lex-zero_iff : (xs ys : List ℕ) → (lex xs ys ≡ pos 0) ↔ (xs ≡ ys)
unfolding lex
lex-zero_iff [] [] = (λ e. refl, λ e. refl)
lex-zero_iff [] (y ∷ ys) = (λ e. cc, λ e. cc)
lex-zero_iff (x ∷ xs) [] = (λ e. cc, λ e. cc)
lex-zero_iff (x ∷ xs) (y ∷ ys) =
    let ih = lex-zero_iff xs ys in (λ e. ground (arith, ih), λ e. ground (arith, ih))

strncmp-eq-lex :
    (n : ℕ) (v : View) (p : ℕ) (w : View) (q : ℕ) (xs ys : List ℕ)
    → Holds v p xs
    → Holds w q ys
    → All (λ x. x < 256) xs
    → All (λ y. y < 256) ys
    → strncmp v p w q n ≡ lex (take n xs) (take n ys)
unfolding strncmp lex
strncmp-eq-lex zero v p w q xs ys hv hw bx by = refl
strncmp-eq-lex (suc n) v p w q [] [] hv hw bx by = rw (hv, hw)
strncmp-eq-lex (suc n) v p w q [] (y ∷ ys) hv hw bx by = ground arith
strncmp-eq-lex (suc n) v p w q (x ∷ xs) [] hv hw bx by = ground arith
strncmp-eq-lex (suc n) v p w q (x ∷ xs) (y ∷ ys) hv hw bx by =
    ground (arith, strncmp-eq-lex n v (p + 1) w (q + 1) xs ys hv.2 hw.2 bx.1 by.1)

-- On two strings of bytes strncmp returns the order of their first n bytes in the dictionary, and
-- 0 exactly if these are the same.
pub strncmp-lex :
    (n : ℕ) (v : View) (p : ℕ) (w : View) (q : ℕ) (xs ys : List ℕ)
    → Holds v p xs
    → Holds w q ys
    → All (λ x. x < 256) xs
    → All (λ y. y < 256) ys
    → (strncmp v p w q n ≡ lex (take n xs) (take n ys))
      × ((strncmp v p w q n ≡ pos 0) ↔ (take n xs ≡ take n ys))
strncmp-lex n v p w q xs ys hv hw bx by =
    let e = strncmp-eq-lex n v p w q xs ys hv hw bx by in
    let zero_iff = lex-zero_iff (take n xs) (take n ys) in
    (e, (λ z. zero_iff.0 (sym e ∙ z), λ same. e ∙ zero_iff.1 same))

module _ {v : View} (bytes : IsBytes v) (w : View) where
  strncmp-suc :
      (n p q y : ℕ)
      → w q ≡ y
      → 0 < y
      → y < 256
      → (strncmp v p w q (suc n) ≡ pos 0) ↔ ((v p ≡ y) × (strncmp v (p + 1) w (q + 1) n ≡ pos 0))
  unfolding strncmp
  strncmp-suc n p q y e lo hi = (λ z. ground (arith, bytes p), λ z. ground (arith, bytes p))

  -- Compared up to and with its NUL, a string is equal only to itself.
  pub strncmp-Holds :
      (p q : ℕ) (ys : List ℕ)
      → Holds w q ys
      → IsChars ys
      → (strncmp v p w q (suc (length ys)) ≡ pos 0) ↔ Holds v p ys
  unfolding strncmp
  strncmp-Holds p q [] hw by = (λ z. ground (arith, bytes p), λ z. ground (arith, bytes p))
  strncmp-Holds p q (y ∷ ys) hw by =
      let step = strncmp-suc (suc (length ys)) p q y hw.0 hw.1 (by.0).1 in
      let ih = strncmp-Holds (p + 1) (q + 1) ys hw.2 by.1 in
      (λ z. let (e, rest) = step.0 z in (e, hw.1, ih.0 rest), λ h. step.1 (h.0, ih.1 h.2))

  -- Compared over its length alone, it is equal to whatever begins with it.
  pub strncmp-Stores :
      (p q : ℕ) (ys : List ℕ)
      → Holds w q ys
      → IsChars ys
      → (strncmp v p w q (length ys) ≡ pos 0) ↔ Stores v p ys
  unfolding strncmp
  strncmp-Stores p q [] hw by = (λ z. tt, λ z. refl)
  strncmp-Stores p q (y ∷ ys) hw by =
      let step = strncmp-suc (length ys) p q y hw.0 hw.1 (by.0).1 in
      let ih = strncmp-Stores (p + 1) (q + 1) ys hw.2 by.1 in
      (λ z. let (e, rest) = step.0 z in (e, ih.0 rest), λ h. step.1 (h.0, ih.1 h.1))

-- The two areas agree over their length and the result is 0, or it is the difference of the bytes
-- at the first place where they differ.
abbrev pub FirstDifference : View → ℕ → View → ℕ → ℕ → ℤ → Type 0
FirstDifference v p w q n r =
    ((r ≡ pos 0) × ((i : ℕ) → i < n → v (p + i) ≡ w (q + i)))
    ⊎ ((i : ℕ) × (i < n)
        × (r ≡ sub_ℕ (v (p + i)) (w (q + i)))
        × (v (p + i) ≢ w (q + i))
        × ((j : ℕ) → j < i → v (p + j) ≡ w (q + j)))

module _ (v : View) (p : ℕ) (w : View) (q : ℕ) where
  at_next : (i : ℕ) → (v (p + 1 + i) ≡ v (p + suc i)) × (w (q + 1 + i) ≡ w (q + suc i))
  at_next i = (ap v (omega arith), ap w (omega arith))

  at_zero : (v (p + 0) ≡ v p) × (w (q + 0) ≡ w q)
  at_zero = (ap v (omega arith), ap w (omega arith))

  FirstDifference-same :
      (n : ℕ) (r : ℤ)
      → v p ≡ w q
      → FirstDifference v (p + 1) w (q + 1) n r
      → FirstDifference v p w q (suc n) r
  FirstDifference-same n r e (inl (z, same)) = inl (z, agree)
    where
      agree : (i : ℕ) → i < suc n → v (p + i) ≡ w (q + i)
      agree zero lt = at_zero.0 ∙ e ∙ sym at_zero.1
      agree (suc i) lt = sym (at_next i).0 ∙ same i (omega arith) ∙ (at_next i).1
  FirstDifference-same n r e (inr (i, lt, is, differ, same)) = inr (
    suc i,
    omega arith,
    is ∙ ap₂ sub_ℕ (at_next i).0 (at_next i).1,
    λ eq. differ ((at_next i).0 ∙ eq ∙ sym (at_next i).1),
    agree,
  )
    where
      agree : (j : ℕ) → j < suc i → v (p + j) ≡ w (q + j)
      agree zero lt' = at_zero.0 ∙ e ∙ sym at_zero.1
      agree (suc j) lt' = sym (at_next j).0 ∙ same j (omega arith) ∙ (at_next j).1

  FirstDifference-here : (n : ℕ) → v p ≢ w q → FirstDifference v p w q (suc n) (sub_ℕ (v p) (w q))
  FirstDifference-here n ne = inr (
    0,
    omega arith,
    ap₂ sub_ℕ (sym at_zero.0) (sym at_zero.1),
    λ eq. ne (sym at_zero.0 ∙ eq ∙ at_zero.1),
    λ j lt. absurd (omega arith),
  )

-- memcmp returns 0 if the two areas agree over the n bytes, and otherwise the difference of the two
-- bytes at the first place where they differ.
pub memcmp-FirstDifference :
    (n : ℕ) (v : View) (p : ℕ) (w : View) (q : ℕ) → FirstDifference v p w q n (memcmp v p w q n)
unfolding memcmp
memcmp-FirstDifference zero v p w q = inl (refl, λ i lt. absurd (omega arith))
memcmp-FirstDifference (suc n) v p w q = elim (Bool-cases (v p == w q)) [
  | inl eq ↦ rw eq (
      FirstDifference-same v p w q n _ (==→eq (v p) (w q) eq)
        (memcmp-FirstDifference n v (p + 1) w (q + 1)))
  | inr ne ↦ rw ne (FirstDifference-here v p w q n (==→ne (v p) (w q) ne))
]
