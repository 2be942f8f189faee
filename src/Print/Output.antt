-- ===== src/Print/Output.antt =====
-- What print.c puts on the line.
use pxa_impedance_matcher.Base.{
  ℕ, zero, suc, ◌+◌, ◌/◌, ◌%◌, ◌^◌, ◌<◌, ◌≡◌, refl, ap, inl, inr, Bool, true, false, Option, none,
  some, List, [], ◌∷◌, ◌++◌, arith, ltb, ◌==◌, if◌then◌else◌, Bool-cases, ==→eq, ne→==, every,
  every-true, length, get_elem?, All, View, Holds,
}
use pxa_impedance_matcher.Machine.{Machine, Cmd, pure, ◌>>◌}
use pxa_impedance_matcher.Machine.Prints.{Prints, Prints-pure, Prints-seq}
use pxa_impedance_matcher.Uart.{Serial}
use pxa_impedance_matcher.Print.{hexdigits, putch, put_digit, printhex, putstr}

-- The character for a number below 16.
unfoldable pub hex_char : ℕ → ℕ
hex_char d = if ltb d 10 then b'0' + d else 87 + d

-- The text of a 32-bit number: eight digits, the most significant first.
unfoldable pub hex_text : ℕ → List ℕ
unfolding hex_char
hex_text u =
    hex_char (u / 2 ^ 28 % 16)
    ∷ hex_char (u / 2 ^ 24 % 16)
    ∷ hex_char (u / 2 ^ 20 % 16)
    ∷ hex_char (u / 2 ^ 16 % 16)
    ∷ hex_char (u / 2 ^ 12 % 16)
    ∷ hex_char (u / 2 ^ 8 % 16)
    ∷ hex_char (u / 2 ^ 4 % 16)
    ∷ hex_char (u / 2 ^ 0 % 16)
    ∷ []

abbrev is_entry : Option ℕ → ℕ → Bool
is_entry none c = false
is_entry (some x) c = x == c

is_entry→eq : (o : Option ℕ) (c : ℕ) → is_entry o c ≡ true → o ≡ some c
is_entry→eq none c h = cc
is_entry→eq (some x) c h = ap some (==→eq x c h)

abbrev hexdigits_test : ℕ → Bool
hexdigits_test d = is_entry (get_elem? hexdigits d) (hex_char d)

hexdigits_table : every 16 hexdigits_test ≡ true
unfolding every hex_char
hexdigits_table = refl

hexdigits_lem : (d : ℕ) → d < 16 → get_elem? hexdigits d ≡ some (hex_char d)
unfolding hex_char
hexdigits_lem d h = is_entry→eq _ _ (every-true 16 hexdigits_test d hexdigits_table h)

hex_char-lt : (d : ℕ) → d < 16 → hex_char d < 256
unfolding hex_char
hex_char-lt d h = ground arith

module _ (s : Serial) where
  -- The bytes that go over the line for one character: '\n' is followed by '\r'.
  unfoldable pub echo : ℕ → List ℕ
  echo c = s.emits c ++ (if c == 0x0a then s.emits 0x0d else [])

  unfoldable pub echo_all : List ℕ → List ℕ
  unfolding echo
  echo_all [] = []
  echo_all (c ∷ cs) = echo c ++ echo_all cs

  unfoldable pub emits_all : List ℕ → List ℕ
  emits_all [] = []
  emits_all (c ∷ cs) = s.emits c ++ emits_all cs

  putch-Prints : (c : ℕ) → c < 256 → (m : Machine) → Prints s.wire (echo c) m (putch s c m)
  unfolding putch echo
  putch-Prints c small m = Prints-seq (s.putch c) _ (s.putch_prints c small m) λ m' _.
      elim (Bool-cases (c == 0x0a)) [
        | inl newline ↦ rw newline (s.putch_prints 0x0d (omega arith) m')
        | inr other ↦ rw other (Prints-pure m')
      ]

  -- With any serial driver putstr ends on every string of bytes within the fuel, and puts each of
  -- its bytes on the line, '\n' followed by '\r', and nothing else.
  pub putstr-Prints :
      (f : ℕ) (v : View) (p : ℕ) (xs : List ℕ)
      → Holds v p xs
      → All (λ x. x < 256) xs
      → length xs < f
      → (m : Machine) → Prints s.wire (echo_all xs) m (putstr s f v p m)
  unfolding putstr echo_all
  putstr-Prints zero v p xs h small fuel m = absurd (omega arith)
  putstr-Prints (suc f) v p [] h small fuel m = rw h (Prints-pure m)
  putstr-Prints (suc f) v p (x ∷ xs) h small fuel m =
      rw (ne→== (v p) 0 (omega arith), h.0)
        (Prints-seq (putch s x) (putstr s f v (p + 1)) (putch-Prints x small.0 m)
          λ m' _. putstr-Prints f v (p + 1) xs h.2 small.1 (omega arith) m')

  put_digit-Prints :
      (d : ℕ) → d < 16 → (m : Machine) → Prints s.wire (s.emits (hex_char d)) m (put_digit s d m)
  unfolding put_digit
  put_digit-Prints d small m =
      rw (hexdigits_lem d small) (s.putch_prints (hex_char d) (hex_char-lt d small) m)

  digit_then :
      {out : List ℕ} {d : ℕ} {m : Machine} (k : Cmd (Unit {0}))
      → d < 16
      → ((m' : Machine) → Prints s.wire out m' (k m'))
      → Prints s.wire (s.emits (hex_char d) ++ out) m ((put_digit s d >> k) m)
  digit_then {d} {m} k small next =
      Prints-seq (put_digit s d) k (put_digit-Prints d small m) (λ m' _. next m')

  -- With any serial driver printhex puts the eight hexadecimal digits of a number, taken modulo 2
  -- ^ 32, on the line.
  pub printhex-Prints :
      (u : ℕ) (m : Machine) → Prints s.wire (emits_all (hex_text u)) m (printhex s u m)
  unfolding printhex hex_text emits_all
  printhex-Prints u m = digit_then _ (omega arith) λ _. digit_then _ (omega arith) λ _.
      digit_then _ (omega arith) λ _. digit_then _ (omega arith) λ _.
        digit_then _ (omega arith) λ _.
          digit_then _ (omega arith)
            λ _. digit_then _ (omega arith) λ _. digit_then (pure tt) (omega arith) Prints-pure
