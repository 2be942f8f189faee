-- ===== src/Hex/Address.antt =====
-- gethexaddr of string.c against the number that the characters write.
use native.Mathlib.Numerals.{towards_suc}
use native.Mathlib.Nat.{pow-le-pow_right}
use pxa_impedance_matcher.Base.{
  ℕ, zero, suc, ◌+◌, ◌-◌, ◌*◌, ◌^◌, ◌≤◌, ◌<◌, ◌≡◌, refl, ap, ap₂, ◌∙◌, true, false, some, List, [],
  ◌∷◌, ◌++◌, arith, eq→==, pos→==, length, length-append, All, done, View, u32, shl, Stores,
  All-append, Stores-append, Stores-All,
}
use pxa_impedance_matcher.Hex.{is_delimiter, scan_end, hex_loop, gethexaddr}
use pxa_impedance_matcher.Hex.Digits.{
  IsHex, IsHex-lt, digit_value, digit-IsHex, hex_value_from, hex_value, hex_value_from-lt,
}

-- Neither a delimiter nor the end of the string.
abbrev pub IsPlain : ℕ → Type 0
IsPlain c = (0 < c) × (is_delimiter c ≡ false)

abbrev pub IsDelimiter : ℕ → Type 0
IsDelimiter c = (0 < c) × (is_delimiter c ≡ true)

pub scan_end_lem :
    (f : ℕ) (v : View) (s : ℕ) (cs : List ℕ) (t : ℕ)
    → Stores v s (cs ++ t ∷ [])
    → All IsPlain cs
    → IsDelimiter t
    → length cs < f
    → (scan_end f v s ≡ done (s + length cs)) × (v (s + length cs) ≡ t)
unfolding scan_end
scan_end_lem zero v s cs t h plain end fuel = absurd (omega arith)
scan_end_lem (suc f) v s [] t h plain end fuel =
    let here : s + 0 ≡ s = omega arith in rw (here, h.0, end.1) (ground arith, refl)
scan_end_lem (suc f) v s (c ∷ cs) t h plain end fuel =
    let (e, at) = scan_end_lem f v (s + 1) cs t h.1 plain.1 end (omega arith) in
    let next : s + suc (length cs) ≡ s + 1 + length cs = omega arith in
    rw (next, h.0, (plain.0).1) (rw (pos→== c (plain.0).0, e), at)

-- The number that the `m` characters from `p` on continue `acc` to.
window : View → ℕ → ℕ → ℕ → ℕ
window v acc p zero = acc
window v acc p (suc m) = window v acc p m * 16 + digit_value (v (p + m))

window-suc :
    (v : View) (acc p m : ℕ)
    → window v acc p (suc m) ≡ window v (acc * 16 + digit_value (v p)) (p + 1) m
unfolding window
window-suc v acc p zero = ap (λ a. acc * 16 + digit_value (v a)) (omega arith)
window-suc v acc p (suc m) =
    let next : p + suc m ≡ p + 1 + m = omega arith in
    rw next (ap (λ w. w * 16 + digit_value (v (p + 1 + m))) (window-suc v acc p m))

window-hex_value :
    (v : View) (acc p : ℕ) (ds : List ℕ)
    → Stores v p ds
    → window v acc p (length ds) ≡ hex_value_from acc ds
unfolding hex_value_from window
window-hex_value v acc p [] h = refl
window-hex_value v acc p (d ∷ ds) h =
    window-suc v acc p (length ds)
    ∙ rw h.0 (window-hex_value v (acc * 16 + digit_value d) (p + 1) ds h.1)

two_pow_add_four : (s : ℕ) → 2 ^ (s + 4) ≡ 16 * 2 ^ s
two_pow_add_four s = simp towards_suc (omega arith)

-- The loop's sum of the digits, from the last to the first.
sum_step :
    (addr w d shift : ℕ)
    → u32 (u32 (addr + d * 2 ^ shift) + 2 ^ (shift + 4) * w) ≡ u32 (addr + 2 ^ shift * (w * 16 + d))
sum_step addr w d shift = omega (arith, ap (λ (t : ℕ). t * w) (two_pow_add_four shift))

module _ (v : View) (str : ℕ) where
  hex_loop-suc :
      (n shift addr : ℕ)
      → IsHex (v (str + n))
      → shift < 32
      → hex_loop v str (suc n) shift addr
        ≡ hex_loop v str n (shift + 4) (u32 (addr + shl (digit_value (v (str + n))) shift))
  unfolding hex_loop
  hex_loop-suc n shift addr hex lt =
      let c = v (str + n) in ground (arith, IsHex-lt c hex, digit-IsHex c hex)

  hex_loop_lem :
      (b m shift addr : ℕ)
      → v (str + b) ≡ b'x'
      → ((i : ℕ) → i < m → IsHex (v (str + suc b + i)))
      → shift + 4 * m ≤ 32
      → addr < 2 ^ 32
      → hex_loop v str (suc b + m) shift addr
        ≡ done (u32 (addr + 2 ^ shift * window v 0 (str + suc b) m))
  unfolding hex_loop window
  hex_loop_lem b zero shift addr x hex fits lt =
      let e : suc b + 0 ≡ suc b = omega arith in
      rw (e, eq→== (v (str + b)) b'x' x) (ap done (omega arith))
  hex_loop_lem b (suc m) shift addr x hex fits lt =
      let e : suc b + suc m ≡ suc (suc b + m) = omega arith in
      let place : str + (suc b + m) ≡ str + suc b + m = omega arith in
      let hex_m : IsHex (v (str + (suc b + m))) = rw place (hex m (omega arith)) in
      rw (e, hex_loop-suc (suc b + m) shift addr hex_m (omega arith), place)
        (hex_loop_lem b m (shift + 4) _ x (λ i i<m. hex i (omega arith)) (omega arith) (omega arith)
          ∙ ap done (sum_step addr (window v 0 (str + suc b) m) _ shift))

IsHex-IsPlain : (c : ℕ) → IsHex c → IsPlain c
unfolding is_delimiter
IsHex-IsPlain c h = ground arith

cs-IsPlain : (pre ds : List ℕ) → All IsPlain pre → All IsHex ds → All IsPlain (pre ++ b'x' ∷ ds)
unfolding is_delimiter
cs-IsPlain pre ds plain hex =
    All-append IsPlain pre (b'x' ∷ ds) plain ((omega arith, refl), All-map ds hex)
  where
    All-map : (ds : List ℕ) → All IsHex ds → All IsPlain ds
    All-map [] h = tt
    All-map (d ∷ ds) h = (IsHex-IsPlain d h.0, All-map ds h.1)

small_value :
    (ds : List ℕ)
    → All IsHex ds
    → length ds ≤ 8
    → u32 (0 + 2 ^ 0 * hex_value_from 0 ds) ≡ hex_value_from 0 ds
small_value ds hex short = omega (
  arith,
  hex_value_from-lt ds 0 1 hex (omega arith),
  pow-le-pow_right {n = 16} (omega arith) short,
)

-- With fuel for the text, gethexaddr ends on a text that has an 'x', at most eight hexadecimal digits
-- after it and then a blank, a tab or a comma, where nothing before the 'x' is a NUL or one of these
-- delimiters: the address is the number that the digits write, whatever stands before the 'x', and
-- *end points at the delimiter.
pub gethexaddr_lem :
    (f : ℕ) (v : View) (str : ℕ) (pre ds : List ℕ) (t : ℕ)
    → Stores v str ((pre ++ b'x' ∷ ds) ++ t ∷ [])
    → All IsPlain pre
    → All IsHex ds
    → IsDelimiter t
    → length ds ≤ 8
    → length pre + length ds + 1 < f
    → gethexaddr f v str
      ≡ done (record { addr = hex_value ds; end = some (str + length pre + 1 + length ds) })
unfolding gethexaddr hex_value
gethexaddr_lem f v str pre ds t h plain hex end short fuel =
    let cs = pre ++ b'x' ∷ ds in
    let len : length cs ≡ suc (length pre) + length ds =
      omega (arith, length-append pre (b'x' ∷ ds)) in
    let (scanned, at_end) =
      scan_end_lem f v str cs t h (cs-IsPlain pre ds plain hex) end (omega arith) in
    let (front, back) = Stores-append v str pre (b'x' ∷ ds) (Stores-append v str cs (t ∷ []) h).0 in
    let digits : Stores v (str + suc (length pre)) ds =
      let e : str + suc (length pre) ≡ str + length pre + 1 = omega arith in rw e back.1 in
    let count : str + length cs - str ≡ suc (length pre) + length ds = omega arith in
    rw
      (
        scanned,
        at_end,
        pos→== t end.0,
        count,
        hex_loop_lem v str (length pre) (length ds) 0 0 back.0
            (Stores-All v IsHex (str + suc (length pre)) ds digits hex) (omega arith) (omega arith),
        window-hex_value v 0 (str + suc (length pre)) ds digits,
      )
      (ap₂ (λ a e. done (record { addr = a; end = some e })) (small_value ds hex short)
        (omega arith))
