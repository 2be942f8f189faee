-- ===== src/Dtbs/FindStr.antt =====
-- find_str of dtbs.c against the places where a string occurs.
use pxa_impedance_matcher.Base.{
  ℕ, zero, suc, ◌+◌, ◌-◌, ◌^◌, ◌≤◌, ◌<◌, ◌≡◌, refl, sym, ◌∙◌, ◌↔◌, ◌⊎◌, inl, inr, Bool, true, ◌&&◌,
  List, [], ◌∷◌, arith, ◌==◌, Bool-cases, eq→==, length, done, View, u32, Holds, IsBytes, IsChars,
}
use mathlib.Core.Bool.{false≢true}
use pxa_impedance_matcher.Base.Int.{is_zero}
use pxa_impedance_matcher.Str.{strncmp}
use pxa_impedance_matcher.Str.Length.{strlen_lem}
use pxa_impedance_matcher.Str.Compare.{strncmp-Holds}
use pxa_impedance_matcher.Hex.Options.{is_zero→eq}
use pxa_impedance_matcher.Dtbs.{find_loop, find_str}

-- Among the `n` places from `p` on stands the string `xs`, with its NUL.
abbrev pub Occurs : View → ℕ → ℕ → List ℕ → Type 0
Occurs ram p n xs = (i : ℕ) × (i < n) × Holds ram (p + i) xs

-- The result is 1 if the statement holds, and 0 if it does not.
abbrev pub Decides : ℕ → Type 0 → Type 0
Decides r P = ((r ≡ 1) × P) ⊎ ((r ≡ 0) × (¬ P))

-- Two strings of the same bytes begin with the same byte.
head_eq : (v w : View) (p q : ℕ) (xs : List ℕ) → Holds v p xs → Holds w q xs → v p ≡ w q
head_eq v w p q [] h k = h ∙ sym k
head_eq v w p q (x ∷ xs) h k = h.0 ∙ sym k.0

module _ (ram : View) (bytes : IsBytes ram) (w : View) (str : ℕ) (xs : List ℕ)
    (text : Holds w str xs) (chars : IsChars xs) where
  abbrev hit : ℕ → Bool
  hit p = ram p == w str && is_zero (strncmp ram p w str (suc (length xs)))

  -- The test of the first byte skips nothing.
  hit_iff : (p : ℕ) → (hit p ≡ true) ↔ Holds ram p xs
  hit_iff p =
      let iff = strncmp-Holds bytes w p str xs text chars in
      (
        λ z. iff.0 (is_zero→eq _ (ground arith)),
        λ h. rw (iff.1 h, eq→== (ram p) (w str) (head_eq ram w p str xs h text)),
      )

  Occurs-here : (n p : ℕ) → Holds ram p xs → Occurs ram p (suc n) xs
  Occurs-here n p h = let e : p + 0 ≡ p = omega arith in (0, omega arith, rw e h)

  Occurs-later : (n p : ℕ) → Occurs ram (p + 1) n xs → Occurs ram p (suc n) xs
  Occurs-later n p (i, lt, h) =
      let e : p + suc i ≡ p + 1 + i = omega arith in (suc i, omega arith, rw e h)

  Occurs-cases : (n p : ℕ) → Occurs ram p (suc n) xs → Holds ram p xs ⊎ Occurs ram (p + 1) n xs
  Occurs-cases n p (zero, lt, h) = let e : p + 0 ≡ p = omega arith in inl (rw e at h)
  Occurs-cases n p (suc i, lt, h) =
      let e : p + suc i ≡ p + 1 + i = omega arith in inr (i, omega arith, rw e at h)

  Decides-later :
      (n p r : ℕ)
      → ¬ Holds ram p xs
      → Decides r (Occurs ram (p + 1) n xs)
      → Decides r (Occurs ram p (suc n) xs)
  Decides-later n p r miss (inl (e, o)) = inl (e, Occurs-later n p o)
  Decides-later n p r miss (inr (e, nowhere)) = inr (e, λ o. either (Occurs-cases n p o))
    where
      either : Holds ram p xs ⊎ Occurs ram (p + 1) n xs → ⊥
      either (inl h) = miss h
      either (inr o) = nowhere o

  find_loop-Decides :
      (n p : ℕ) → Decides (find_loop n ram p w str (suc (length xs))) (Occurs ram p n xs)
  unfolding find_loop
  find_loop-Decides zero p = inr (refl, λ (i, lt, h). absurd (omega arith))
  find_loop-Decides (suc n) p = elim (Bool-cases (hit p)) [
    | inl found ↦ rw found (inl (refl, Occurs-here n p ((hit_iff p).0 found)))
    | inr miss ↦ rw miss (
        Decides-later n p _ (λ h. false≢true (sym miss ∙ (hit_iff p).1 h))
          (find_loop-Decides n (p + 1)))
  ]

  -- For a string that is shorter than the end of the area, an area below 2 ^ 32 and fuel for the
  -- string, find_str ends and returns 1 exactly if the string stands, its NUL included, at one of
  -- the places of the area before the last one at which it would fit, and 0 otherwise. At that
  -- last place it is not found.
  pub find_str-Decides :
      (f mem memsz : ℕ)
      → length xs < f
      → length xs + 1 ≤ mem + memsz
      → mem + memsz < 2 ^ 32
      → (r : ℕ) × (find_str f ram mem memsz w str ≡ done r)
        × Decides r (Occurs ram mem (memsz - (length xs + 1)) xs)
  unfolding find_str
  find_str-Decides f mem memsz fuel fits top =
      let rounds : u32 (mem + memsz + 2 ^ 32 - (length xs + 1)) - mem ≡ memsz - (length xs + 1) =
        omega arith in
      let e : length xs + 1 ≡ suc (length xs) = omega arith in
      (
        find_loop (memsz - (length xs + 1)) ram mem w str (suc (length xs)),
        rw (strlen_lem f w str xs text fuel, rounds, e),
        find_loop-Decides (memsz - (length xs + 1)) mem,
      )
