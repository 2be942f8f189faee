-- ===== src/Atags/Walk.antt =====
-- The walk of atags.h over the tags, as one body after another.
use pxa_impedance_matcher.Base.{
  ℕ, zero, suc, ◌<◌, ◌≡◌, refl, ◌≢◌, List, [], ◌∷◌, arith, ne→==, length, View,
}
use pxa_impedance_matcher.Machine.{
  Machine, Run, ok, stuck, undefined, no_fuel, Cmd, pure, ◌>>=◌, and_then,
}
use pxa_impedance_matcher.Atags.{tag_size, tag_next, for_each_tag}

-- From `t` on stand the tags `ts`, and then one of size 0.
pub data Tags (ram : View) : ℕ → List ℕ → Type 0 where
  end : {t : ℕ} → tag_size ram t ≡ 0 → Tags ram t []
  next :
      {t : ℕ} {ts : List ℕ}
      → tag_size ram t ≢ 0
      → Tags ram (tag_next ram t) ts
      → Tags ram t (t ∷ ts)

-- One body after another.
abbrev pub run_all : {S : Type 0} → (ℕ → S → Cmd S) → List ℕ → S → Cmd S
run_all body [] s = pure s
run_all body (t ∷ ts) s = body t s >>= λ s'. run_all body ts s'

-- The body leaves the RAM alone.
abbrev pub KeepsRam : {S : Type 0} → (ℕ → S → Cmd S) → Type 0
KeepsRam {S} body =
    (t : ℕ) (s : S) (m : Machine) (s' : S) (m' : Machine) → body t s m ≡ ok s' m' → m'.ram ≡ m.ram

module _ {S : Type 0} (body : ℕ → S → Cmd S) (keeps : KeepsRam body) where
  -- Runs are equal if what follows the first step is.
  and_then-cong :
      (r : Run S) (k l : S → Cmd S)
      → ((s : S) (m : Machine) → r ≡ ok s m → k s m ≡ l s m)
      → and_then r k ≡ and_then r l
  and_then-cong (ok s m) k l h = h s m refl
  and_then-cong (stuck m) k l h = refl
  and_then-cong undefined k l h = refl
  and_then-cong no_fuel k l h = refl

  -- The walk over the tags is the bodies of the tags one after another, in order, where the bodies
  -- leave the RAM alone and the fuel is more than the number of tags.
  pub for_each_tag-run_all :
      (f : ℕ) (m : Machine) (t : ℕ) (ts : List ℕ) (s : S)
      → Tags m.ram t ts
      → length ts < f
      → for_each_tag f body t s m ≡ run_all body ts s m
  unfolding for_each_tag
  for_each_tag-run_all zero m t ts s tags fuel = absurd (omega arith)
  for_each_tag-run_all (suc f) m t [] s (end e) fuel = rw e
  for_each_tag-run_all (suc f) m t ts s (next {t = u} {ts = rest} ne tags) fuel =
      rw (ne→== (tag_size m.ram u) 0 ne) (
        and_then-cong (body u s m) _ _ λ s' m' e.
          for_each_tag-run_all f m' (tag_next m'.ram u) rest s' (rw (keeps u s m s' m' e) tags)
            (omega arith))
