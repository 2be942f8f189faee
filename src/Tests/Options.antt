-- ===== src/Tests/Options.antt =====
-- getaddrs on command lines that name the option.
use mathlib.Core.Bool.{false≢true}
use pxa_impedance_matcher.Base.{
  ℕ, ◌≡◌, refl, sym, ◌∙◌, false, List, arith, every, codes, done, fault, lit, Stores,
}
use pxa_impedance_matcher.Base.Int.{pos}
use pxa_impedance_matcher.Hex.{is_delimiter, getaddrs}
use pxa_impedance_matcher.Hex.Digits.{hex_value}
use pxa_impedance_matcher.Hex.Options.{option, appended}
use pxa_impedance_matcher.Hex.Found.{
  IsAddress, HasOption, getaddrs-appended, getaddrs-last, getaddrs-unset,
}
use pxa_impedance_matcher.Tests.Addresses.{lit-IsBytes, starts, starts-Stores, nowhere}

abbrev appended_line : List ℕ
appended_line = codes "rw loadaddrs=appended,0xb2 ro"

abbrev last_line : List ℕ
last_line = codes "rw loadaddrs=0xA000,0xb2"

abbrev unset_line : List ℕ
unset_line = codes "rw loadaddrs=0xA000"

abbrev junk : List ℕ
junk = codes "rw "

-- The option's operand is not "appended".
not_appended : (xs : List ℕ) → starts (lit xs) 13 appended ≡ false → ¬ Stores (lit xs) 13 appended
not_appended xs h stored = false≢true (sym h ∙ starts-Stores (lit xs) 13 appended stored)

-- "0xA000," after the option, and an address behind it.
kernel_at :
    (xs : List ℕ) → Stores (lit xs) 13 (codes "0xA000,") → IsAddress (lit xs) 13 (codes "A000") b','
unfolding is_delimiter
kernel_at xs text = record {
  pre = codes "0";
  text = text;
  plain = ((omega arith, refl), tt);
  hex = (refl, (refl, (refl, (refl, tt))));
  delimiter = (omega arith, refl);
  short = omega arith;
}

dtb_at :
    (xs : List ℕ) (p : ℕ)
    → Stores (lit xs) p (codes "0xb2 ")
    → IsAddress (lit xs) p (codes "b2") b' '
unfolding is_delimiter
dtb_at xs p text = record {
  pre = codes "0";
  text = text;
  plain = ((omega arith, refl), tt);
  hex = (refl, (refl, tt));
  delimiter = (omega arith, refl);
  short = omega arith;
}

appended-HasOption : HasOption (lit appended_line) 0 junk
unfolding every starts
appended-HasOption = record {
  before = omega arith;
  no_end = omega arith;
  first = nowhere (lit appended_line) option 3 refl;
  there = omega arith;
}

last-HasOption : HasOption (lit last_line) 0 junk
unfolding every starts
last-HasOption = record {
  before = omega arith;
  no_end = omega arith;
  first = nowhere (lit last_line) option 3 refl;
  there = omega arith;
}

unset-HasOption : HasOption (lit unset_line) 0 junk
unfolding every starts
unset-HasOption = record {
  before = omega arith;
  no_end = omega arith;
  first = nowhere (lit unset_line) option 3 refl;
  there = omega arith;
}

getaddrs-appended_example :
    getaddrs 40 (lit appended_line) 0 7 0
    ≡ done (record { ret = pos 0; k = 0; d = hex_value (codes "b2") })
unfolding dtb_at
getaddrs-appended_example =
    getaddrs-appended (lit-IsBytes appended_line (omega arith)) appended-HasOption 40 7 0
      (omega arith) (dtb_at appended_line 22 (omega arith)) (omega arith) (omega arith)

-- The device tree's address "0xb2" is lost.
last_lost :
    getaddrs 40 (lit last_line) 0 0 9
    ≡ done (record { ret = pos 0; k = hex_value (codes "A000"); d = 0 })
unfolding starts is_delimiter kernel_at
last_lost =
    getaddrs-last (lit-IsBytes last_line (omega arith)) last-HasOption 40 0 9
      (kernel_at last_line (omega arith)) (codes "0xb2") (omega arith)
      (refl, (refl, (refl, (refl, tt)))) (not_appended last_line refl) (omega arith) (omega arith)
      (omega arith)

unset_end : getaddrs 40 (lit unset_line) 0 0 0 ≡ fault
unfolding starts is_delimiter
unset_end =
    getaddrs-unset (lit-IsBytes unset_line (omega arith)) unset-HasOption 40 0 0 (codes "0xA000")
      (omega arith) (refl, (refl, (refl, (refl, (refl, (refl, tt))))))
      (not_appended unset_line refl) (omega arith) (omega arith)
