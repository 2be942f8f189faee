-- ===== src/Boards/Raumfeld/Led/Wait.antt =====
-- The waiting of board-raumfeld.c, seen on a line that it does not use.
use pxa_impedance_matcher.Base.{
  ℕ, zero, suc, ◌≡◌, sym, ap, ◌∙◌, ◌⊎◌, inl, inr, true, false, List, [], ◌∷◌, ◌++◌, append-nil, ltb,
  Bool-cases, u32, refl,
}
use pxa_impedance_matcher.Machine.{Event, wrote, got, Machine, Run, Device, readl, writel}
use pxa_impedance_matcher.Machine.Prints.{Prints, Prints-pure, Prints-seq}
use pxa_impedance_matcher.Boards.Raumfeld.Led.{oscr, wait_ticks, wait}

-- Of the next `k` reads of the timer one shows `ticks` or more.
unfoldable pub Elapses : Device → ℕ → ℕ → List Event → Type 0
Elapses dev ticks zero h = ⊥
Elapses dev ticks (suc k) h =
    let v = u32 (dev h oscr) in (ltb v ticks ≡ false) ⊎ Elapses dev ticks k (got oscr v ∷ h)

-- A write that is not on the line.
pub writel-quiet :
    (wire : List Event → List ℕ) (val a : ℕ) (m : Machine)
    → wire (wrote a (u32 val) ∷ m.history) ≡ wire m.history
    → Prints wire [] m (writel val a m)
unfolding writel
writel-quiet wire val a m e = record {
  after = record m { history = wrote a (u32 val) ∷ m.history };
  returns = refl;
  line = e ∙ sym (append-nil (wire m.history));
  same_ram = refl;
}

module _ (dev : Device) (wire : List Event → List ℕ)
    (wire-got : (v : ℕ) (h : List Event) → wire (got oscr v ∷ h) ≡ wire h) where
  after_read : Machine → Machine
  after_read m = record m { history = got oscr (u32 (dev m.history oscr)) ∷ m.history }

  Prints-read :
      {out : List ℕ} (m : Machine) {r : Run (Unit {0})}
      → Prints wire out (after_read m) r
      → Prints wire out m r
  unfolding after_read
  Prints-read {out} m p = record {
    after = p.after;
    returns = p.returns;
    line = p.line ∙ ap (λ l. l ++ out) (wire-got (u32 (dev m.history oscr)) m.history);
    same_ram = p.same_ram;
  }

  wait_ticks-quiet :
      (f ticks : ℕ) (m : Machine)
      → Elapses dev ticks f m.history
      → Prints wire [] m (wait_ticks dev f ticks m)
  unfolding wait_ticks Elapses readl after_read
  wait_ticks-quiet zero ticks m elapses = absurd elapses
  wait_ticks-quiet (suc f) ticks m elapses =
      elim (Bool-cases (ltb (u32 (dev m.history oscr)) ticks)) [
        | inl early ↦
            rw early (Prints-read m (wait_ticks-quiet f ticks (after_read m) (later early elapses)))
        | inr late ↦ rw late (Prints-read m (Prints-pure (after_read m)))
      ]
    where
      later :
          ltb (u32 (dev m.history oscr)) ticks ≡ true
          → Elapses dev ticks (suc f) m.history
          → Elapses dev ticks f (after_read m).history
      later early (inl late) = cc
      later early (inr more) = more

  module _ (wire-wrote : (v : ℕ) (h : List Event) → wire (wrote oscr v ∷ h) ≡ wire h) (f : ℕ)
      (elapses : (h : List Event) → Elapses dev 500000 f h) where
    pub wait-quiet : (m : Machine) → Prints wire [] m (wait dev f 500000 m)
    unfolding wait
    wait-quiet m =
        Prints-seq (writel 0 oscr) (wait_ticks dev f 500000)
          (writel-quiet wire 0 oscr m (wire-wrote 0 m.history))
          λ m' _. wait_ticks-quiet f 500000 m' (elapses m'.history)
