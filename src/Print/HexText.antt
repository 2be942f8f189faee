-- ===== src/Print/HexText.antt =====
-- The text that printhex prints, as one that gethexaddr reads.
use pxa_impedance_matcher.Base.{
  ℕ, ◌+◌, ◌/◌, ◌%◌, ◌^◌, ◌<◌, ◌≡◌, refl, ap₂, ◌∙◌, some, [], ◌∷◌, ◌++◌, arith, length, All, done,
  View, Stores,
}
use pxa_impedance_matcher.Hex.{gethexaddr, is_delimiter}
use pxa_impedance_matcher.Hex.Digits.{IsHex, digit_value, hex_value, hex_value_from}
use pxa_impedance_matcher.Hex.Address.{IsPlain, IsDelimiter, gethexaddr_lem}
use pxa_impedance_matcher.Print.Output.{hex_char, hex_text}

hex_char-IsHex : (d : ℕ) → d < 16 → IsHex (hex_char d)
unfolding hex_char
hex_char-IsHex d h = ground arith

digit_value-hex_char : (d : ℕ) → d < 16 → digit_value (hex_char d) ≡ d
unfolding hex_char digit_value
digit_value-hex_char d h = ground arith

hex_text-IsHex : (u : ℕ) → All IsHex (hex_text u)
unfolding hex_text
hex_text-IsHex u = (
  digit (u / 2 ^ 28),
  (
    digit (u / 2 ^ 24),
    (
      digit (u / 2 ^ 20),
      (
        digit (u / 2 ^ 16),
        (digit (u / 2 ^ 12), (digit (u / 2 ^ 8), (digit (u / 2 ^ 4), (digit (u / 2 ^ 0), tt)))),
      ),
    ),
  ),
)
  where
    digit : (x : ℕ) → IsHex (hex_char (x % 16))
    digit x = hex_char-IsHex (x % 16) (omega arith)

hex_value-hex_text : (u : ℕ) → u < 2 ^ 32 → hex_value (hex_text u) ≡ u
unfolding hex_value hex_text hex_value_from
hex_value-hex_text u h =
    rw
      (
        digit (u / 2 ^ 28),
        digit (u / 2 ^ 24),
        digit (u / 2 ^ 20),
        digit (u / 2 ^ 16),
        digit (u / 2 ^ 12),
        digit (u / 2 ^ 8),
        digit (u / 2 ^ 4),
        digit (u / 2 ^ 0),
      )
      (omega arith)
  where
    digit : (x : ℕ) → digit_value (hex_char (x % 16)) ≡ x % 16
    digit x = digit_value-hex_char (x % 16) (omega arith)

-- The eight digits that printhex prints, behind "0x" and before a delimiter, are read back by
-- gethexaddr as the number that was printed.
pub gethexaddr-hex_text :
    (f : ℕ) (v : View) (p u t : ℕ)
    → Stores v p ((b'0' ∷ b'x' ∷ hex_text u) ++ t ∷ [])
    → u < 2 ^ 32
    → IsDelimiter t
    → 10 < f
    → gethexaddr f v p ≡ done (record { addr = u; end = some (p + 10) })
gethexaddr-hex_text f v p u t h small end fuel =
    let size : length (hex_text u) ≡ 8 = unfold hex_text in refl in
    gethexaddr_lem f v p (b'0' ∷ []) (hex_text u) t h zero_plain (hex_text-IsHex u) end
      (omega arith) (omega arith)
    ∙ ap₂ (λ a e. done (record { addr = a; end = some e })) (hex_value-hex_text u small)
        (omega arith)
  where
    zero_plain : All IsPlain (b'0' ∷ [])
    zero_plain = unfold is_delimiter in ((omega arith, refl), tt)
