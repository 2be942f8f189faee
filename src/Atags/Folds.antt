-- ===== src/Atags/Folds.antt =====
-- A walk over the tags whose body prints.
use pxa_impedance_matcher.Base.{
  ℕ, zero, suc, ◌<◌, ◌≡◌, ap, ◌∙◌, false, ◌==◌, List, [], ◌∷◌, ◌++◌, arith, ne→==, length, All,
  View,
}
use pxa_impedance_matcher.Machine.{Event, Machine, Cmd}
use pxa_impedance_matcher.Machine.Prints.{Gives, Gives-pure}
use pxa_impedance_matcher.Machine.Bind.{Gives-bind}
use pxa_impedance_matcher.Atags.{tag_size, tag_next, for_each_tag}
use pxa_impedance_matcher.Atags.Walk.{Tags, end, next}

-- The state after the tags, and what is printed of them.
abbrev pub folded : {S : Type 0} → (ℕ → S → S) → List ℕ → S → S
folded step [] s = s
folded step (t ∷ ts) s = folded step ts (step t s)

abbrev pub texts : (ℕ → List ℕ) → List ℕ → List ℕ
texts text [] = []
texts text (t ∷ ts) = text t ++ texts text ts

module _ {S : Type 0} (wire : List Event → List ℕ) (ram : View) (body : ℕ → S → Cmd S)
    (IsFine : ℕ → Type 0) (step : ℕ → S → S) (text : ℕ → List ℕ)
    (each : (t : ℕ) (s : S) (m : Machine)
      → IsFine t
      → m.ram ≡ ram
      → Gives wire (text t) (step t s) m (body t s m)) where
  -- A body that does one step for each tag, and prints one text, makes the walk do the steps and
  -- print the texts.
  pub for_each_tag-Gives :
      (f : ℕ) (m : Machine) (t : ℕ) (ts : List ℕ) (s : S)
      → Tags ram t ts
      → All IsFine ts
      → length ts < f
      → m.ram ≡ ram
      → Gives wire (texts text ts) (folded step ts s) m (for_each_tag f body t s m)
  unfolding for_each_tag
  for_each_tag-Gives zero m t ts s tags fine fuel same = absurd (omega arith)
  for_each_tag-Gives (suc f) m t [] s (end {t = u} e) fine fuel same =
      let e' : tag_size m.ram u ≡ 0 = ap (λ r. tag_size r u) same ∙ e in rw e' (Gives-pure s m)
  for_each_tag-Gives (suc f) m t ts s (next {t = u} {ts = rest} ne tags) fine fuel same =
      let first = each u s m fine.0 same in
      let more : (tag_size m.ram u == 0) ≡ false =
        ap (λ r. tag_size r u == 0) same ∙ ne→== (tag_size ram u) 0 ne in
      rw more (
        Gives-bind (body u s) _ first (
          for_each_tag-Gives f first.after (tag_next first.after.ram u) rest (step u s)
            (rw (first.same_ram ∙ same) tags) fine.1 (omega arith) (first.same_ram ∙ same)))
