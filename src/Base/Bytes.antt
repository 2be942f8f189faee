-- ===== src/Base/Bytes.antt =====
-- Byte arrays, machine words and C strings. A C pointer is an array of bytes with an index into
-- it: the RAM with an address, or a string literal with an offset.
use Prim.Native.Nat.{ℕ, zero, suc, ◌+◌, ◌*◌, ◌/◌, ◌%◌, ◌^◌, ◌<◌}
use mathlib.Core.Path.{◌≡◌, ap, ◌∙◌}
use mathlib.Core.List.{List, [], ◌∷◌, ◌++◌}
use native.Mathlib.Omega.{arith}
use pxa_impedance_matcher.Base.Lists.{All, length, get_or}

-- An array of bytes.
abbrev pub View : Type 0
View = ℕ → ℕ

abbrev pub u8 : ℕ → ℕ
u8 n = n % 2 ^ 8

abbrev pub u16 : ℕ → ℕ
u16 n = n % 2 ^ 16

abbrev pub u32 : ℕ → ℕ
u32 n = n % 2 ^ 32

abbrev pub u64 : ℕ → ℕ
u64 n = n % 2 ^ 64

-- x >> k, x << k and x & (2^k - 1), in the form that `omega` reads.
abbrev pub shr : ℕ → ℕ → ℕ
shr x k = x / 2 ^ k

abbrev pub shl : ℕ → ℕ → ℕ
shl x k = x * 2 ^ k

abbrev pub low_bits : ℕ → ℕ → ℕ
low_bits x k = x % 2 ^ k

-- A string literal: its bytes, and the NUL that ends it. What reads a literal stops there, but for
-- "okay" of board-raumfeld.c, which has a View of its own (Boards/Raumfeld/Fixups).
abbrev pub lit : List ℕ → View
lit xs i = get_or xs i 0

-- At `p` stands a C string with the bytes `xs`.
abbrev pub Holds : View → ℕ → List ℕ → Type 0
Holds v p [] = v p ≡ 0
Holds v p (x ∷ xs) = (v p ≡ x) × (0 < x) × Holds v (p + 1) xs

-- At `p` stand the bytes `xs`.
abbrev pub Stores : View → ℕ → List ℕ → Type 0
Stores v p [] = Unit
Stores v p (x ∷ xs) = (v p ≡ x) × Stores v (p + 1) xs

module _ (v : View) where
  pub Holds-end : (p : ℕ) (xs : List ℕ) → Holds v p xs → v (p + length xs) ≡ 0
  Holds-end p [] h = ap v (omega arith) ∙ h
  Holds-end p (x ∷ xs) h = ap v (omega arith) ∙ Holds-end (p + 1) xs h.2

  -- A byte before the end of a string is not NUL.
  pub Holds-pos : (p : ℕ) (xs : List ℕ) → Holds v p xs → (i : ℕ) → i < length xs → 0 < v (p + i)
  Holds-pos p [] h i lt = absurd (omega arith)
  Holds-pos p (x ∷ xs) h zero lt = let e : v (p + 0) ≡ x = ap v (omega arith) ∙ h.0 in omega arith
  Holds-pos p (x ∷ xs) h (suc i) lt =
      let e : v (p + suc i) ≡ v (p + 1 + i) = ap v (omega arith) in
      omega (arith, Holds-pos (p + 1) xs h.2 i (omega arith))

  -- The rest of a string behind its first part.
  pub Holds-append : (p : ℕ) (xs ys : List ℕ) → Holds v p (xs ++ ys) → Holds v (p + length xs) ys
  Holds-append p [] ys h = let e : p ≡ p + 0 = omega arith in rw (← e) h
  Holds-append p (x ∷ xs) ys h =
      let e : p + 1 + length xs ≡ p + suc (length xs) = omega arith in
      rw (← e) (Holds-append (p + 1) xs ys h.2)

-- A literal holds its own bytes.
lit-Holds_from :
    (v : View) (k : ℕ) (xs : List ℕ)
    → ((i : ℕ) → v (k + i) ≡ lit xs i)
    → All (λ x. 0 < x) xs
    → Holds v k xs
lit-Holds_from v k [] e h = let z : v k ≡ v (k + 0) = ap v (omega arith) in z ∙ e 0
lit-Holds_from v k (x ∷ xs) e h = (
  ap v (omega arith) ∙ e 0,
  h.0,
  lit-Holds_from v (k + 1) xs (λ i. ap v (omega arith) ∙ e (suc i)) h.1,
)

pub lit-Holds : (xs : List ℕ) → All (λ x. 0 < x) xs → Holds (lit xs) 0 xs
lit-Holds xs = lit-Holds_from (lit xs) 0 xs (λ i. ap (lit xs) (omega arith))

-- Each element fits a byte.
abbrev pub IsBytes : View → Type 0
IsBytes v = (i : ℕ) → v i < 256

abbrev pub IsChars : List ℕ → Type 0
IsChars xs = All (λ x. (0 < x) × (x < 256)) xs

pub All-append {ℓ κ} :
    {A : Type ℓ} (P : A → Type κ) (xs ys : List A) → All P xs → All P ys → All P (xs ++ ys)
All-append P [] ys h k = k
All-append P (x ∷ xs) ys h k = (h.0, All-append P xs ys h.1 k)

module _ (v : View) where
  pub Stores-append :
      (p : ℕ) (xs ys : List ℕ) → Stores v p (xs ++ ys) → Stores v p xs × Stores v (p + length xs) ys
  Stores-append p [] ys h = let e : p + 0 ≡ p = omega arith in (tt, rw e h)
  Stores-append p (x ∷ xs) ys h =
      let (front, back) = Stores-append (p + 1) xs ys h.1 in
      let e : p + suc (length xs) ≡ p + 1 + length xs = omega arith in ((h.0, front), rw e back)

  pub Stores-All {κ} :
      (P : ℕ → Type κ) (p : ℕ) (xs : List ℕ)
      → Stores v p xs
      → All P xs
      → (i : ℕ) → i < length xs
      → P (v (p + i))
  Stores-All P p [] h a i lt = absurd (omega arith)
  Stores-All P p (x ∷ xs) h a zero lt = let e : p + 0 ≡ p = omega arith in rw (e, h.0) a.0
  Stores-All P p (x ∷ xs) h a (suc i) lt =
      let e : p + suc i ≡ p + 1 + i = omega arith in
      rw e (Stores-All P (p + 1) xs h.1 a.1 i (omega arith))
