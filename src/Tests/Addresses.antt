-- ===== src/Tests/Addresses.antt =====
-- The addresses on a command line.
use mathlib.Core.Bool.{false≢true}
use pxa_impedance_matcher.Base.{
  ℕ, zero, suc, ◌+◌, ◌<◌, ◌≡◌, refl, Bool, true, not, ◌&&◌, none, some, List, [], ◌∷◌, arith, ◌==◌,
  eq→==, every, every-true, codes, All, done, View, lit, Stores, lit-Holds,
}
use pxa_impedance_matcher.Hex.{is_delimiter, gethexaddr}
use pxa_impedance_matcher.Hex.Digits.{hex_value}
use pxa_impedance_matcher.Hex.Address.{gethexaddr_lem}
use pxa_impedance_matcher.Hex.Found.{gethexaddr-unterminated}
use pxa_impedance_matcher.Print.Output.{hex_text}
use pxa_impedance_matcher.Print.HexText.{gethexaddr-hex_text}

abbrev both_line : List ℕ
both_line = codes "rw loadaddrs=0xA000,0xb2 ro"

abbrev appended_line : List ℕ
appended_line = codes "rw loadaddrs=appended,0xb2 ro"

abbrev last_line : List ℕ
last_line = codes "rw loadaddrs=0xA000,0xb2"

abbrev unset_line : List ℕ
unset_line = codes "rw loadaddrs=0xA000"

abbrev plain_line : List ℕ
plain_line = codes "console=ttyS0"

abbrev junk : List ℕ
junk = codes "rw "

pub lit-IsBytes : (xs : List ℕ) → All (λ x. x < 256) xs → (i : ℕ) → lit xs i < 256
lit-IsBytes [] h i = omega arith
lit-IsBytes (x ∷ xs) h zero = h.0
lit-IsBytes (x ∷ xs) h (suc i) = lit-IsBytes xs h.1 i

-- No place below `n` holds the option, by a test of each.
unfoldable pub starts : View → ℕ → List ℕ → Bool
starts v p [] = true
starts v p (x ∷ xs) = v p == x && starts v (p + 1) xs

pub starts-Stores : (v : View) (p : ℕ) (xs : List ℕ) → Stores v p xs → starts v p xs ≡ true
unfolding starts
starts-Stores v p [] h = refl
starts-Stores v p (x ∷ xs) h = rw (eq→== (v p) x h.0) (starts-Stores v (p + 1) xs h.1)

pub nowhere :
    (v : View) (xs : List ℕ) (n : ℕ)
    → every n (λ i. not (starts v (0 + i) xs)) ≡ true
    → (i : ℕ) → i < n
    → ¬ Stores v (0 + i) xs
nowhere v xs n h i lt stored =
    let none_here = every-true n (λ i. not (starts v (0 + i) xs)) i h lt in
    let here = starts-Stores v (0 + i) xs stored in false≢true (rw here at none_here)

gethexaddr_lem_example :
    gethexaddr 9 (lit (codes "0x1F, ")) 0
    ≡ done (record { addr = hex_value (codes "1F"); end = some 4 })
unfolding is_delimiter
gethexaddr_lem_example =
    gethexaddr_lem 9 (lit (codes "0x1F, ")) 0 (codes "0") (codes "1F") b',' (omega arith)
      ((omega arith, refl), tt) (refl, (refl, tt)) (omega arith, refl) (omega arith) (omega arith)

hex_value_1F : hex_value (codes "1F") ≡ 0x1f
unfolding hex_value
hex_value_1F = refl

gethexaddr-unterminated_example :
    gethexaddr 9 (lit (codes "0x1F")) 0 ≡ done (record { addr = 0; end = none })
unfolding is_delimiter
gethexaddr-unterminated_example =
    gethexaddr-unterminated 9 (lit (codes "0x1F")) 0 (codes "0x1F")
      (lit-Holds (codes "0x1F") (omega arith)) (refl, (refl, (refl, (refl, tt)))) (omega arith)

gethexaddr-hex_text_example :
    gethexaddr 20 (lit (codes "0xa0008000 ")) 0 ≡ done (record { addr = 0xa0008000; end = some 10 })
unfolding hex_text is_delimiter
gethexaddr-hex_text_example =
    gethexaddr-hex_text 20 (lit (codes "0xa0008000 ")) 0 0xa0008000 b' ' (omega arith) (omega arith)
      (omega arith, refl) (omega arith)
