-- ===== src/Ram/Fill.antt =====
-- memset of string.c.
use pxa_impedance_matcher.Base.{
  ℕ, zero, suc, ◌+◌, ◌≡◌, Bool, ◌&&◌, arith, leb, ltb, if◌then◌else◌, View, u8,
}
use pxa_impedance_matcher.Ram.{store, memset_loop, memset}

-- `b` is one of the `n` addresses from `a` on.
abbrev pub within : ℕ → ℕ → ℕ → Bool
within a n b = leb a b && ltb b (a + n)

memset_loop_lem :
    (n : ℕ) (ram : View) (s c b : ℕ)
    → memset_loop n ram s c b ≡ (if within s n b then u8 c else ram b)
unfolding memset_loop store
memset_loop_lem zero ram s c b = ground arith
memset_loop_lem (suc n) ram s c b =
    ground (arith, memset_loop_lem n (store ram s (u8 c)) (s + 1) c b)

-- memset fills exactly the area that it is given with the value as a char, and leaves every other
-- byte as it was.
pub memset_lem :
    (ram : View) (s c n b : ℕ) → memset ram s c n b ≡ (if within s n b then u8 c else ram b)
unfolding memset
memset_lem ram s c n b = memset_loop_lem n ram s c b
