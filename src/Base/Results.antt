-- ===== src/Base/Results.antt =====
-- The result of a computation that only reads: a value, a fault (what C leaves undefined: a read
-- outside an array or of an unset variable, a shift by the width or more), or no fuel left.

pub data Result {ℓ} (A : Type ℓ) : Type ℓ where
  done : A → Result A
  fault : Result A
  out_of_fuel : Result A

infixl 5 ◌>>=◌
abbrev pub ◌>>=◌ {ℓ κ} : {A : Type ℓ} {B : Type κ} → Result A → (A → Result B) → Result B
done a >>= f = f a
fault >>= f = fault
out_of_fuel >>= f = out_of_fuel
