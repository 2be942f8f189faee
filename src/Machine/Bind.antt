-- ===== src/Machine/Bind.antt =====
-- What a step with a result and the step behind it put on the line.
use pxa_impedance_matcher.Base.{ℕ, ap, ◌∙◌, List, ◌++◌, append_assoc}
use pxa_impedance_matcher.Machine.{Event, Machine, Cmd, ◌>>=◌}
use pxa_impedance_matcher.Machine.Prints.{Gives, Stops}

module _ {wire : List Event → List ℕ} {A B : Type 0} where
  pub Gives-bind :
      {xs ys : List ℕ} {m : Machine} {a : A} {b : B} (c : Cmd A) (k : A → Cmd B)
      (first : Gives wire xs a m (c m))
      → Gives wire ys b first.after (k a first.after)
      → Gives wire (xs ++ ys) b m ((c >>= k) m)
  Gives-bind {xs} {ys} {m} c k first next = record {
    after = next.after;
    returns = rw first.returns next.returns;
    line = next.line ∙ ap (λ l. l ++ ys) first.line ∙ append_assoc (wire m.history) xs ys;
    same_ram = next.same_ram ∙ first.same_ram;
  }

  pub Stops-bind :
      {xs ys : List ℕ} {m : Machine} {a : A} (c : Cmd A) (k : A → Cmd B)
      (first : Gives wire xs a m (c m))
      → Stops wire ys first.after (k a first.after)
      → Stops wire (xs ++ ys) m ((c >>= k) m)
  Stops-bind {xs} {ys} {m} c k first next = record {
    after = next.after;
    stops = rw first.returns next.stops;
    line = next.line ∙ ap (λ l. l ++ ys) first.line ∙ append_assoc (wire m.history) xs ys;
    same_ram = next.same_ram ∙ first.same_ram;
  }

  -- A step that does not return stops what is behind it.
  pub Stops-first :
      {xs : List ℕ} {m : Machine} (c : Cmd A) (k : A → Cmd B)
      → Stops wire xs m (c m)
      → Stops wire xs m ((c >>= k) m)
  Stops-first c k first = record {
    after = first.after;
    stops = rw first.stops;
    line = first.line;
    same_ram = first.same_ram;
  }
