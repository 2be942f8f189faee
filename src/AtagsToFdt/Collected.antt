-- ===== src/AtagsToFdt/Collected.antt =====
-- The banks that libfdt/atags_to_fdt.c collects from the memory tags, apart from the walk over them.
use pxa_impedance_matcher.Base.{
  ℕ, zero, suc, ◌+◌, ◌-◌, ◌*◌, ◌^◌, ◌≤◌, ◌<◌, ◌≡◌, refl, sym, ap, ap₂, ◌∙◌, ◌⊎◌, List, [], ◌∷◌,
  ◌++◌, append_assoc, append-nil, arith, length, length-append, take, View, ◌==◌, if◌then◌else◌,
}
use pxa_impedance_matcher.Ram.{store}
use pxa_impedance_matcher.Ram.Area.{Keeps, store32-Keeps}
use pxa_impedance_matcher.Endian.{store32, cpu_to_fdt32}
use pxa_impedance_matcher.Fdt.Contract.{bytes_of, big_endian_bytes}
use pxa_impedance_matcher.Atags.Struct.{atag_mem}
use pxa_impedance_matcher.Atags.Encoded.{Tag}
use pxa_impedance_matcher.AtagsToFdt.Memory.{stored}

-- The start and the size of a piece of memory.
abbrev pub Bank : Type 0
Bank = ℕ × ℕ

-- The body of a memory tag: the size, then the start. One of size 0 counts for nothing.
abbrev pub bank_in : List ℕ → List Bank
bank_in (size ∷ start ∷ rest) = if size == 0 then [] else (start, size) ∷ []
bank_in (size ∷ []) = []
bank_in [] = []

abbrev pub bank_of : Tag → List Bank
bank_of t = if t.kind == atag_mem then bank_in t.body else []

abbrev pub banks_of : List Tag → List Bank
banks_of [] = []
banks_of (t ∷ ts) = bank_of t ++ banks_of ts

-- The banks as a device tree holds them.
abbrev pub bank_bytes : List Bank → List ℕ
bank_bytes [] = []
bank_bytes (b ∷ bs) = big_endian_bytes b.0 ++ big_endian_bytes b.1 ++ bank_bytes bs

-- The banks that were there, and as many of the next as there is room for in the array.
abbrev pub filled : List Bank → List Bank → List Bank
filled done more = done ++ take (16 - length done) more

pub bank_bytes-append :
    (xs : List Bank) (b : Bank)
    → bank_bytes (xs ++ b ∷ []) ≡ bank_bytes xs ++ (big_endian_bytes b.0 ++ big_endian_bytes b.1)
bank_bytes-append [] b = refl
bank_bytes-append (x ∷ xs) b =
    let start = big_endian_bytes x.0 in
    let size = big_endian_bytes x.1 in ap (λ l. start ++ size ++ l) (bank_bytes-append xs b)

pub filled-next :
    (done : List Bank) (b : Bank) (more : List Bank)
    → length done < 16
    → filled (done ++ b ∷ []) more ≡ filled done (b ∷ more)
filled-next done b more lt =
    let left : 16 - length done ≡ suc (16 - length (done ++ b ∷ [])) =
      omega (arith, length-append done (b ∷ [])) in
    append_assoc done (b ∷ []) _ ∙ ap (λ n. done ++ take n (b ∷ more)) (sym left)

pub filled-full : (done more : List Bank) → length done ≡ 16 → filled done more ≡ done
filled-full done more full =
    let none_left : 16 - length done ≡ 0 = omega arith in
    ap (λ n. done ++ take n more) none_left ∙ append-nil done

bytes_of-split :
    (v : View) (a n k : ℕ) → bytes_of v a (n + k) ≡ bytes_of v a n ++ bytes_of v (a + n) k
bytes_of-split v a zero k = ap₂ (bytes_of v) {y = a + 0} (omega arith) (omega arith)
bytes_of-split v a (suc n) k =
    ap (λ c. bytes_of v a c) {y = suc (n + k)} (omega arith)
    ∙ ap (λ l. v a ∷ l)
        (bytes_of-split v (a + 1) n k
          ∙ ap (λ c. bytes_of v (a + 1) n ++ bytes_of v c k) {y = a + suc n} (omega arith))

pub bytes_of-Keeps :
    {lo hi : ℕ} {ram out : View} (a n : ℕ)
    → Keeps lo hi ram out
    → (a + n ≤ lo) ⊎ (hi ≤ a)
    → bytes_of out a n ≡ bytes_of ram a n
bytes_of-Keeps a zero keeps apart = refl
bytes_of-Keeps a (suc n) keeps apart =
    ap₂ ◌∷◌ (keeps a (omega arith)) (bytes_of-Keeps (a + 1) n keeps (omega arith))

bytes_of-store32 :
    (ram : View) (a val : ℕ)
    → val < 2 ^ 32
    → bytes_of (store32 ram a (cpu_to_fdt32 val)) a 4 ≡ big_endian_bytes val
unfolding store32 store cpu_to_fdt32
bytes_of-store32 ram a val lt = ground arith

-- The array's bytes with one more bank.
pub bytes_of-stored :
    (regs : ℕ) (ram : View) (k start size : ℕ)
    → start < 2 ^ 32
    → size < 2 ^ 32
    → bytes_of (stored regs ram (2 * k) start size) regs (8 * (k + 1))
      ≡ bytes_of ram regs (8 * k) ++ (big_endian_bytes start ++ big_endian_bytes size)
bytes_of-stored regs ram k start size lt lt' =
    ap (bytes_of out regs) {y = 8 * k + 8} (omega arith)
    ∙ bytes_of-split out regs (8 * k) 8
    ∙ ap₂ ◌++◌ front (bytes_of-split out (regs + 8 * k) 4 4 ∙ ap₂ ◌++◌ first second)
  where
    mid : View
    mid = store32 ram (regs + 4 * (2 * k)) (cpu_to_fdt32 start)

    out : View
    out = stored regs ram (2 * k) start size

    second_Keeps : Keeps (regs + 8 * k + 4) (regs + 8 * k + 8) mid out
    second_Keeps =
        store32-Keeps (regs + 8 * k + 4) (regs + 8 * k + 8) mid (regs + 4 * (2 * k + 1))
          (cpu_to_fdt32 size) (omega arith) (omega arith)

    front : bytes_of out regs (8 * k) ≡ bytes_of ram regs (8 * k)
    front =
        bytes_of-Keeps regs (8 * k) second_Keeps (omega arith)
        ∙ bytes_of-Keeps regs (8 * k)
            (store32-Keeps (regs + 8 * k) (regs + 8 * k + 4) ram (regs + 4 * (2 * k))
              (cpu_to_fdt32 start) (omega arith) (omega arith))
            (omega arith)

    first : bytes_of out (regs + 8 * k) 4 ≡ big_endian_bytes start
    first =
        bytes_of-Keeps (regs + 8 * k) 4 second_Keeps (omega arith)
        ∙ ap (λ a. bytes_of mid a 4) {y = regs + 4 * (2 * k)} (omega arith)
        ∙ bytes_of-store32 ram (regs + 4 * (2 * k)) start lt

    second : bytes_of out (regs + 8 * k + 4) 4 ≡ big_endian_bytes size
    second =
        ap (λ a. bytes_of out a 4) {y = regs + 4 * (2 * k + 1)} (omega arith)
        ∙ bytes_of-store32 mid (regs + 4 * (2 * k + 1)) size lt'
