-- ===== src/Tests/Strings.antt =====
-- The string and memory functions on small arrays.
use pxa_impedance_matcher.Base.{
  ℕ, ◌%◌, min, ◌≡◌, refl, ◌↔◌, some, List, arith, codes, take, done, View, lit, Holds, lit-Holds,
}
use pxa_impedance_matcher.Base.Int.{pos, negsuc}
use pxa_impedance_matcher.Str.{strnlen, strrchr, strncmp}
use pxa_impedance_matcher.Str.Length.{strnlen-min}
use pxa_impedance_matcher.Str.Compare.{lex, strncmp-lex}
use pxa_impedance_matcher.Ram.{store, memcpy, memmove}
use pxa_impedance_matcher.Ram.Copy.{Copied, memmove-Copied}

abbrev abca : List ℕ
abca = codes "abca"

abbrev abd : List ℕ
abd = codes "abd"

abbrev bytes : View
bytes i = i % 256

abca-Holds : Holds (lit abca) 0 abca
abca-Holds = lit-Holds abca (omega arith)

abd-Holds : Holds (lit abd) 0 abd
abd-Holds = lit-Holds abd (omega arith)

strnlen_cut : strnlen (lit abca) 0 3 ≡ min 4 3
strnlen_cut = strnlen-min (lit abca) 0 3 abca abca-Holds

strrchr_finds_last : strrchr 9 (lit abca) 0 b'a' ≡ done (some 3)
unfolding strrchr
strrchr_finds_last = refl

strncmp-lex_example :
    (strncmp (lit abca) 0 (lit abd) 0 2 ≡ lex (take 2 abca) (take 2 abd))
    × ((strncmp (lit abca) 0 (lit abd) 0 2 ≡ pos 0) ↔ (take 2 abca ≡ take 2 abd))
strncmp-lex_example =
    strncmp-lex 2 (lit abca) 0 (lit abd) 0 abca abd abca-Holds abd-Holds (omega arith) (omega arith)

strncmp_less : strncmp (lit abca) 0 (lit abd) 0 3 ≡ negsuc 0
unfolding strncmp
strncmp_less = refl

-- Overlapping areas, moved up by one.
memmove-Copied_example : Copied bytes 21 20 4 (memmove bytes 21 20 4)
memmove-Copied_example = memmove-Copied bytes 21 20 4

-- memcpy repeats its first byte there.
memcpy_overlapping : memcpy bytes 21 20 4 24 ≡ 20
unfolding memcpy store
memcpy_overlapping = refl
