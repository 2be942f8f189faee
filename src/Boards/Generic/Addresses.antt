-- ===== src/Boards/Generic/Addresses.antt =====
-- The addresses that the command lines give, as a function of the tags.
use pxa_impedance_matcher.Base.{
  ℕ, ◌≡◌, refl, true, false, List, [], ◌∷◌, arith, ◌==◌, if◌then◌else◌, Result, done, fault,
  out_of_fuel, ◌>>=◌, View,
}
use pxa_impedance_matcher.Hex.{Addrs, getaddrs}
use pxa_impedance_matcher.Atags.{atag_cmdline, tag_kind, tag_body}

-- A command line that does not name an address keeps what was there.
unfoldable pub addresses : ℕ → View → List ℕ → ℕ → ℕ → Result (ℕ × ℕ)
addresses f ram [] k d = done (k, d)
addresses f ram (t ∷ ts) k d =
    if tag_kind ram t == atag_cmdline
    then (getaddrs f ram (tag_body t) k d >>= λ a. addresses f ram ts a.k a.d)
    else addresses f ram ts k d

>>=-done :
    {A B : Type 0} (r : Result A) (k : A → Result B) {b : B}
    → r >>= k ≡ done b
    → (a : A) × (r ≡ done a) × (k a ≡ done b)
>>=-done (done a) k e = (a, refl, e)
>>=-done fault k e = cc
>>=-done out_of_fuel k e = cc

module _ (f : ℕ) (ram : View) (t : ℕ) (ts : List ℕ) (k d : ℕ) {out : ℕ × ℕ} where
  -- The tag is a command line.
  pub addresses-cmdline :
      (tag_kind ram t == atag_cmdline) ≡ true
      → addresses f ram (t ∷ ts) k d ≡ done out
      → (a : Addrs) × (getaddrs f ram (tag_body t) k d ≡ done a)
        × (addresses f ram ts a.k a.d ≡ done out)
  unfolding addresses
  addresses-cmdline hit e =
      >>=-done (getaddrs f ram (tag_body t) k d) (λ a. addresses f ram ts a.k a.d) (rw hit at e)

  -- It is another.
  pub addresses-other :
      (tag_kind ram t == atag_cmdline) ≡ false
      → addresses f ram (t ∷ ts) k d ≡ done out
      → addresses f ram ts k d ≡ done out
  unfolding addresses
  addresses-other miss e = rw miss at e

pub addresses-nil :
    (f : ℕ) (ram : View) (k d k' d' : ℕ)
    → addresses f ram [] k d ≡ done (k', d')
    → (k ≡ k') × (d ≡ d')
unfolding addresses
addresses-nil f ram k d k' d' e = ground arith
