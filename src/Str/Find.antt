-- ===== src/Str/Find.antt =====
-- memchr, strchr and strrchr of string.c against what they search for.
use pxa_impedance_matcher.Base.{
  ℕ, zero, suc, ◌+◌, ◌<◌, ◌≡◌, ◌≢◌, ◌∙◌, refl, ap, List, [], ◌∷◌, Option, none, some, arith, length,
  ◌==◌, if◌then◌else◌, false, sym, eq→==, ne→==, Bool-cases, inl, inr, ==→eq, ==→ne, View, u8,
  Holds, done,
}
use pxa_impedance_matcher.Str.{memchr, strchr, strrchr_loop, strrchr}

-- The result is the first of the `n` places from `p` on that holds `c`, or `none` if none does.
abbrev pub First : View → ℕ → ℕ → ℕ → Option ℕ → Type 0
First v c p n none = (i : ℕ) → i < n → v (p + i) ≢ c
First v c p n (some q) =
    (i : ℕ) × (i < n) × (q ≡ p + i) × (v q ≡ c) × ((j : ℕ) → j < i → v (p + j) ≢ c)

-- The result is the last of them.
abbrev pub Last : View → ℕ → ℕ → ℕ → Option ℕ → Type 0
Last v c p n none = (i : ℕ) → i < n → v (p + i) ≢ c
Last v c p n (some q) =
    (i : ℕ) × (i < n) × (q ≡ p + i) × (v q ≡ c) × ((j : ℕ) → i < j → j < n → v (p + j) ≢ c)

module _ (v : View) (c p : ℕ) where
  First-here : (n : ℕ) → v p ≡ c → First v c p (suc n) (some p)
  First-here n e = (0, omega arith, omega arith, e, λ j lt. absurd (omega arith))

  not_here : v p ≢ c → (j : ℕ) → j ≡ 0 → v (p + j) ≢ c
  not_here ne j z e = ne (ap v (omega arith) ∙ e)

  First-later : (n : ℕ) (r : Option ℕ) → v p ≢ c → First v c (p + 1) n r → First v c p (suc n) r
  First-later n none ne h = later
    where
      later : (i : ℕ) → i < suc n → v (p + i) ≢ c
      later zero lt = not_here ne 0 refl
      later (suc i) lt = λ e. h i (omega arith) (ap v (omega arith) ∙ e)
  First-later n (some q) ne (i, lt, at, is, before) = (suc i, omega arith, omega arith, is, earlier)
    where
      earlier : (j : ℕ) → j < suc i → v (p + j) ≢ c
      earlier zero lt' = not_here ne 0 refl
      earlier (suc j) lt' = λ e. before j (omega arith) (ap v (omega arith) ∙ e)

-- memchr returns the first of the n bytes that equals the argument as an unsigned char, and NULL
-- exactly if none of them does.
pub memchr-First : (v : View) (p c n : ℕ) → First v (u8 c) p n (memchr v p c n)
unfolding memchr
memchr-First v p c zero = λ i lt. absurd (omega arith)
memchr-First v p c (suc n) = elim (Bool-cases (u8 c == v p)) [
  | inl hit ↦ rw hit (First-here v (u8 c) p n (sym (==→eq (u8 c) (v p) hit)))
  | inr miss ↦ rw miss (
      First-later v (u8 c) p n (memchr v (p + 1) c n) (λ e. ==→ne (u8 c) (v p) miss (sym e))
        (memchr-First v (p + 1) c n))
]

-- strchr ends on every string within the fuel and returns the first of its bytes, the NUL among
-- them, that equals the argument as a char, and NULL if none does.
pub strchr-First :
    (f : ℕ) (v : View) (p c : ℕ) (xs : List ℕ)
    → Holds v p xs
    → length xs < f
    → (r : Option ℕ) × (strchr f v p c ≡ done r) × First v (u8 c) p (suc (length xs)) r
unfolding strchr
strchr-First zero v p c xs h fuel = absurd (omega arith)
strchr-First (suc f) v p c [] h fuel = elim (Bool-cases (v p == u8 c)) [
  | inl hit ↦ (some p, rw hit, First-here v (u8 c) p 0 (==→eq (v p) (u8 c) hit))
  | inr miss ↦ (
    none,
    rw (miss, eq→== (v p) 0 h),
    First-later v (u8 c) p 0 none (==→ne (v p) (u8 c) miss) (λ i lt. absurd (omega arith)),
  )
]
strchr-First (suc f) v p c (x ∷ xs) h fuel = elim (Bool-cases (v p == u8 c)) [
  | inl hit ↦ (some p, rw hit, First-here v (u8 c) p _ (==→eq (v p) (u8 c) hit))
  | inr miss ↦
      let (r, e, first) = strchr-First f v (p + 1) c xs h.2 (omega arith) in
      (
        r,
        rw (miss, ne→== (v p) 0 (omega arith)) e,
        First-later v (u8 c) p (suc (length xs)) r (==→ne (v p) (u8 c) miss) first,
      )
]

-- What the loop of strrchr returns: the last place found, or else what it had before.
abbrev or_else : Option ℕ → Option ℕ → Option ℕ
or_else (some q) ret = some q
or_else none ret = ret

or_else_assoc : (a b c : Option ℕ) → or_else (or_else a b) c ≡ or_else a (or_else b c)
or_else_assoc (some q) b c = refl
or_else_assoc none b c = refl

-- The place `p` itself, if it holds `c`.
abbrev here : View → ℕ → ℕ → Option ℕ
here v c p = if v p == c then some p else none

Last-here : (v : View) (c p n : ℕ) → Last v c (p + 1) n none → Last v c p (suc n) (here v c p)
Last-here v c p n after = elim (Bool-cases (v p == c)) [
  | inl hit ↦ rw hit (0, omega arith, omega arith, ==→eq (v p) c hit, later)
  | inr miss ↦ rw miss (none_here miss)
]
  where
    later : (j : ℕ) → 0 < j → j < suc n → v (p + j) ≢ c
    later zero lt lt' = absurd (omega arith)
    later (suc j) lt lt' = λ e. after j (omega arith) (ap v (omega arith) ∙ e)

    none_here : (v p == c) ≡ false → (i : ℕ) → i < suc n → v (p + i) ≢ c
    none_here miss zero lt = not_here v c p (==→ne (v p) c miss) 0 refl
    none_here miss (suc i) lt = λ e. after i (omega arith) (ap v (omega arith) ∙ e)

Last-step :
    (v : View) (c p n : ℕ) (r : Option ℕ)
    → Last v c (p + 1) n r
    → Last v c p (suc n) (or_else r (here v c p))
Last-step v c p n none after = Last-here v c p n after
Last-step v c p n (some q) (i, lt, at, is, after) = (suc i, omega arith, omega arith, is, later)
  where
    later : (j : ℕ) → suc i < j → j < suc n → v (p + j) ≢ c
    later zero lt' lt'' = absurd (omega arith)
    later (suc j) lt' lt'' = λ e. after j (omega arith) (omega arith) (ap v (omega arith) ∙ e)

found_as_or_else :
    (v : View) (c p : ℕ) (ret : Option ℕ)
    → (if v p == c then some p else ret) ≡ or_else (here v c p) ret
found_as_or_else v c p ret = ground arith

strrchr_loop-Last :
    (f : ℕ) (v : View) (s c : ℕ) (ret : Option ℕ) (xs : List ℕ)
    → Holds v s xs
    → length xs < f
    → (r : Option ℕ) × (strrchr_loop f v s c ret ≡ done (or_else r ret))
      × Last v c s (suc (length xs)) r
unfolding strrchr_loop
strrchr_loop-Last zero v s c ret xs h fuel = absurd (omega arith)
strrchr_loop-Last (suc f) v s c ret [] h fuel = (
  here v c s,
  rw (eq→== (v s) 0 h) (ap done (found_as_or_else v c s ret)),
  Last-here v c s 0 (λ i lt. absurd (omega arith)),
)
strrchr_loop-Last (suc f) v s c ret (x ∷ xs) h fuel =
    let found : Option ℕ = if v s == c then some s else ret in
    let (r, e, last) = strrchr_loop-Last f v (s + 1) c found xs h.2 (omega arith) in
    (
      or_else r (here v c s),
      rw (ne→== (v s) 0 (omega arith)) (
          e
          ∙ ap (λ o. done (or_else r o)) (found_as_or_else v c s ret)
          ∙ ap done (sym (or_else_assoc r (here v c s) ret))),
      Last-step v c s (suc (length xs)) r last,
    )

-- strrchr ends on every string within the fuel and returns the last of its bytes, the NUL among
-- them, that equals the argument, and NULL if none does.
pub strrchr-Last :
    (f : ℕ) (v : View) (p c : ℕ) (xs : List ℕ)
    → Holds v p xs
    → length xs < f
    → (r : Option ℕ) × (strrchr f v p c ≡ done r) × Last v c p (suc (length xs)) r
unfolding strrchr
strrchr-Last f v p c xs h fuel =
    let (r, e, last) = strrchr_loop-Last f v p c none xs h fuel in
    (r, e ∙ ap done (or_else_none r), last)
  where
    or_else_none : (r : Option ℕ) → or_else r none ≡ r
    or_else_none (some q) = refl
    or_else_none none = refl
