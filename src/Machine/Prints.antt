-- ===== src/Machine/Prints.antt =====
-- What a step of the machine puts on a line that is read off its register accesses.
use pxa_impedance_matcher.Base.{
  ℕ, ◌≡◌, refl, sym, ap, ◌∙◌, subst, List, [], ◌++◌, append_assoc, append-nil,
}
use pxa_impedance_matcher.Machine.{Event, Machine, Run, ok, stuck, panic, Cmd, ◌>>◌}

-- The step returns, the bytes `out` are added to the line, and the RAM is unchanged.
pub record Prints (wire : List Event → List ℕ) (out : List ℕ) (m : Machine) (r : Run (Unit {0}))
    : Type 0 where
  pub after : Machine
  pub returns : r ≡ ok tt after
  pub line : wire after.history ≡ wire m.history ++ out
  pub same_ram : after.ram ≡ m.ram

module _ {wire : List Event → List ℕ} where
  pub Prints-pure : (m : Machine) → Prints wire [] m (ok tt m)
  Prints-pure m = record {
    after = m;
    returns = refl;
    line = sym (append-nil (wire m.history));
    same_ram = refl;
  }

  -- One step after another.
  pub Prints-seq :
      {xs ys : List ℕ} {m : Machine} (c d : Cmd (Unit {0}))
      → Prints wire xs m (c m)
      → ((m' : Machine) → m'.ram ≡ m.ram → Prints wire ys m' (d m'))
      → Prints wire (xs ++ ys) m ((c >> d) m)
  Prints-seq {xs} {ys} {m} c d p next =
      let q = next p.after p.same_ram in
      record {
        after = q.after;
        returns = rw p.returns q.returns;
        line = q.line ∙ ap (λ l. l ++ ys) p.line ∙ append_assoc (wire m.history) xs ys;
        same_ram = q.same_ram ∙ p.same_ram;
      }

  -- The line says as much under another text for the same bytes.
  pub Prints-eq :
      {xs ys : List ℕ} {m : Machine} {r : Run (Unit {0})}
      → Prints wire xs m r
      → xs ≡ ys
      → Prints wire ys m r
  Prints-eq {m} {r} p e = subst (λ zs. Prints wire zs m r) e p

-- The step returns `a`, the bytes `out` are added to the line, and the RAM is unchanged.
pub record Gives {A : Type 0} (wire : List Event → List ℕ) (out : List ℕ) (a : A) (m : Machine)
    (r : Run A) : Type 0 where
  pub after : Machine
  pub returns : r ≡ ok a after
  pub line : wire after.history ≡ wire m.history ++ out
  pub same_ram : after.ram ≡ m.ram

-- The step enters a loop that it never leaves, having added the bytes `out` to the line.
pub record Stops {A : Type 0} (wire : List Event → List ℕ) (out : List ℕ) (m : Machine) (r : Run A)
    : Type 0 where
  pub after : Machine
  pub stops : r ≡ stuck after
  pub line : wire after.history ≡ wire m.history ++ out
  pub same_ram : after.ram ≡ m.ram

module _ {wire : List Event → List ℕ} {A : Type 0} where
  pub Gives-pure : (a : A) (m : Machine) → Gives wire [] a m (ok a m)
  Gives-pure a m = record {
    after = m;
    returns = refl;
    line = sym (append-nil (wire m.history));
    same_ram = refl;
  }

  pub Stops-panic : (m : Machine) → Stops {A = A} wire [] m (panic m)
  unfolding panic
  Stops-panic m = record {
    after = m;
    stops = refl;
    line = sym (append-nil (wire m.history));
    same_ram = refl;
  }

  pub Gives-seq :
      {xs ys : List ℕ} {m : Machine} {a : A} (c : Cmd (Unit {0})) (d : Cmd A)
      (p : Prints wire xs m (c m))
      → Gives wire ys a p.after (d p.after)
      → Gives wire (xs ++ ys) a m ((c >> d) m)
  Gives-seq {xs} {ys} {m} c d p q = record {
    after = q.after;
    returns = rw p.returns q.returns;
    line = q.line ∙ ap (λ l. l ++ ys) p.line ∙ append_assoc (wire m.history) xs ys;
    same_ram = q.same_ram ∙ p.same_ram;
  }

  pub Prints-Gives :
      {xs ys : List ℕ} {m : Machine} {a : A} (c : Cmd (Unit {0})) (d : Cmd A)
      → Prints wire xs m (c m)
      → ((m' : Machine) → m'.ram ≡ m.ram → Gives wire ys a m' (d m'))
      → Gives wire (xs ++ ys) a m ((c >> d) m)
  Prints-Gives c d p next = Gives-seq c d p (next p.after p.same_ram)

  pub Stops-seq :
      {xs ys : List ℕ} {m : Machine} (c : Cmd (Unit {0})) (d : Cmd A) (p : Prints wire xs m (c m))
      → Stops wire ys p.after (d p.after)
      → Stops wire (xs ++ ys) m ((c >> d) m)
  Stops-seq {xs} {ys} {m} c d p q = record {
    after = q.after;
    stops = rw p.returns q.stops;
    line = q.line ∙ ap (λ l. l ++ ys) p.line ∙ append_assoc (wire m.history) xs ys;
    same_ram = q.same_ram ∙ p.same_ram;
  }

  pub Prints-Stops :
      {xs ys : List ℕ} {m : Machine} (c : Cmd (Unit {0})) (d : Cmd A)
      → Prints wire xs m (c m)
      → ((m' : Machine) → m'.ram ≡ m.ram → Stops wire ys m' (d m'))
      → Stops wire (xs ++ ys) m ((c >> d) m)
  Prints-Stops c d p next = Stops-seq c d p (next p.after p.same_ram)

  -- The step seen from an earlier machine with the same line and RAM.
  pub Gives-from :
      {out : List ℕ} {a : A} {m m' : Machine} {r : Run A}
      → wire m'.history ≡ wire m.history
      → m'.ram ≡ m.ram
      → Gives wire out a m' r
      → Gives wire out a m r
  Gives-from {out} e same g = record {
    after = g.after;
    returns = g.returns;
    line = g.line ∙ ap (λ l. l ++ out) e;
    same_ram = g.same_ram ∙ same;
  }

  pub Stops-from :
      {out : List ℕ} {m m' : Machine} {r : Run A}
      → wire m'.history ≡ wire m.history
      → m'.ram ≡ m.ram
      → Stops wire out m' r
      → Stops wire out m r
  Stops-from {out} e same g = record {
    after = g.after;
    stops = g.stops;
    line = g.line ∙ ap (λ l. l ++ out) e;
    same_ram = g.same_ram ∙ same;
  }
