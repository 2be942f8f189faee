-- ===== src/Hex/Digits.antt =====
-- The characters that gethexaddr reads, and their values.
use pxa_impedance_matcher.Base.{
  ℕ, ◌+◌, ◌-◌, ◌*◌, ◌^◌, ◌<◌, ◌≡◌, refl, ap, Bool, true, false, not, ◌&&◌, ◌||◌, List, [], ◌∷◌,
  arith, leb, ◌==◌, if◌then◌else◌, ==→eq, every, every-true, length, All, Result, done, fault,
  out_of_fuel,
}
use native.Mathlib.Nat.{pow-suc}
use pxa_impedance_matcher.Hex.{digit}

-- 0-9, A-F and a-f.
abbrev pub is_hex : ℕ → Bool
is_hex c = (leb b'0' c && leb c b'9') || (leb b'A' c && leb c b'F') || (leb b'a' c && leb c b'f')

abbrev pub IsHex : ℕ → Type 0
IsHex c = is_hex c ≡ true

-- What such a character stands for.
unfoldable pub digit_value : ℕ → ℕ
digit_value c = if leb c b'9' then c - b'0' else (if leb c b'F' then c - 55 else c - 87)

-- The number that is written by the characters, the most significant first.
unfoldable pub hex_value_from : ℕ → List ℕ → ℕ
hex_value_from acc [] = acc
hex_value_from acc (c ∷ cs) = hex_value_from (acc * 16 + digit_value c) cs

unfoldable pub hex_value : List ℕ → ℕ
unfolding hex_value_from digit_value
hex_value cs = hex_value_from 0 cs

abbrev yields : Result ℕ → ℕ → Bool
yields (done d) e = d == e
yields fault e = false
yields out_of_fuel e = false

yields→eq : (r : Result ℕ) (e : ℕ) → yields r e ≡ true → r ≡ done e
yields→eq (done d) e h = ap done (==→eq d e h)
yields→eq fault e h = cc
yields→eq out_of_fuel e h = cc

digit_test : ℕ → Bool
digit_test c = not (is_hex c) || yields (digit c) (digit_value c)

digit_table : every 103 digit_test ≡ true
unfolding every digit_test digit digit_value
digit_table = refl

digit_test-hex : (c : ℕ) → IsHex c → digit_test c ≡ true → yields (digit c) (digit_value c) ≡ true
unfolding digit_test
digit_test-hex c h t = rw h at t

pub IsHex-lt : (c : ℕ) → IsHex c → c < 103
IsHex-lt c h = ground arith

pub digit-IsHex : (c : ℕ) → IsHex c → digit c ≡ done (digit_value c)
digit-IsHex c h =
    yields→eq _ _ (digit_test-hex c h (every-true 103 digit_test c digit_table (IsHex-lt c h)))

pub digit_value-lt : (c : ℕ) → IsHex c → digit_value c < 16
unfolding digit_value
digit_value-lt c h = ground arith

pub hex_value_from-lt :
    (cs : List ℕ) (acc b : ℕ) → All IsHex cs → acc < b → hex_value_from acc cs < b * 16 ^ length cs
unfolding hex_value_from
hex_value_from-lt [] acc b h lt = omega arith
hex_value_from-lt (c ∷ cs) acc b h lt = omega (
  arith,
  hex_value_from-lt cs (acc * 16 + digit_value c) (b * 16) h.1
      (omega (arith, digit_value-lt c h.0)),
  ap (λ (t : ℕ). b * t) (pow-suc 16 (length cs)),
)
