-- ===== src/Str/Length.antt =====
-- strlen and strnlen of string.c.
use pxa_impedance_matcher.Base.{
  ℕ, zero, suc, ◌+◌, ◌<◌, ◌≡◌, List, [], ◌∷◌, ap, min, arith, length, View, Holds, done,
}
use pxa_impedance_matcher.Str.{strlen_loop, strlen, strnlen_loop, strnlen}

strlen_loop-Holds :
    (f : ℕ) (v : View) (c : ℕ) (xs : List ℕ)
    → Holds v c xs
    → length xs < f
    → strlen_loop f v c ≡ done (c + length xs + 1)
unfolding strlen_loop
strlen_loop-Holds zero v c xs h fuel = absurd (omega arith)
strlen_loop-Holds (suc f) v c [] h fuel = rw h (ap done (omega arith))
strlen_loop-Holds (suc f) v c (x ∷ xs) h fuel = ground (arith, strlen_loop-Holds f v (c + 1) xs h.2)

-- strlen ends on every string within the fuel and counts the NUL: it returns one more than the
-- number of bytes before it.
pub strlen_lem :
    (f : ℕ) (v : View) (p : ℕ) (xs : List ℕ)
    → Holds v p xs
    → length xs < f
    → strlen f v p ≡ done (length xs + 1)
unfolding strlen
strlen_lem f v p xs h fuel = rw (strlen_loop-Holds f v p xs h fuel) (ap done (omega arith))

strnlen_loop-Holds :
    (left : ℕ) (v : View) (s len : ℕ) (xs : List ℕ)
    → Holds v s xs
    → strnlen_loop left v s len ≡ len + min (length xs) left
unfolding strnlen_loop
strnlen_loop-Holds zero v s len xs h = omega arith
strnlen_loop-Holds (suc left) v s len [] h = rw h (omega arith)
strnlen_loop-Holds (suc left) v s len (x ∷ xs) h =
    ground (arith, strnlen_loop-Holds left v (s + 1) (len + 1) xs h.2)

-- strnlen is the number of bytes before the NUL, or the limit if that is smaller.
pub strnlen-min :
    (v : View) (p n : ℕ) (xs : List ℕ) → Holds v p xs → strnlen v p n ≡ min (length xs) n
unfolding strnlen
strnlen-min v p n xs h = omega (arith, strnlen_loop-Holds n v p 0 xs h)
