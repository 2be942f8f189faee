-- ===== src/AtagsToFdt/Walked.antt =====
-- The walk of libfdt/atags_to_fdt.c over a list of which only the memory tags are for the tree.
use pxa_impedance_matcher.Base.{
  pos→==, ℕ, zero, suc, ◌+◌, ◌*◌, ◌^◌, ◌≤◌, ◌<◌, ◌≡◌, refl, ap, ◌∙◌, ◌⊎◌, List, [], ◌∷◌, ◌++◌, Bool,
  append-nil, take, arith, length, length-append, All, View, u32, ◌-◌,
}
use pxa_impedance_matcher.Machine.{Machine, ok, and_then}
use pxa_impedance_matcher.Fdt.{Fdt}
use pxa_impedance_matcher.Atags.{tag_next, for_each_tag}
use pxa_impedance_matcher.Atags.Encoded.{Tag, encode, WordsAt, next-WordsAt, encode_fits}
use pxa_impedance_matcher.AtagsToFdt.{reg_cells, Locals, Banks, fold_tag}
use pxa_impedance_matcher.AtagsToFdt.Access.{get_cell_size}
use pxa_impedance_matcher.AtagsToFdt.Collected.{Bank, banks_of, filled}
use pxa_impedance_matcher.AtagsToFdt.Collecting.{KeepsArray, Collected, Collects}
use pxa_impedance_matcher.AtagsToFdt.Folded.{Plain, WordsAt-Keeps, fold_tag-Collects}

filled-nil : (done : List Bank) → filled done [] ≡ done
filled-nil done = ap (λ l. done ++ l) (take-nil (16 - length done)) ∙ append-nil done
  where
    take-nil : (n : ℕ) → take {A = Bank} n [] ≡ []
    take-nil zero = refl
    take-nil (suc n) = refl

-- A list of tags that stands apart from the array, below 2 ^ 32.
pub record Apart (regs a : ℕ) (ts : List Tag) : Type 0 where
  pub below : a + 4 * length (encode ts) ≤ 2 ^ 32
  pub apart : (a + 4 * length (encode ts) ≤ regs) ⊎ (regs + 4 * reg_cells ≤ a)

Apart-next :
    (regs a : ℕ) (t : Tag) (ts : List Tag)
    → Apart regs a (t ∷ ts)
    → Apart regs (a + 4 * (length t.body + 2)) ts
Apart-next regs a t ts h =
    let longer = length-append t.body (encode ts) in
    record { below = omega (arith, longer, h.below); apart = omega (arith, longer, h.apart) }

-- The address of the next tag.
tag_next_lem :
    (ram : View) (a : ℕ) (t : Tag) (ts : List Tag)
    → WordsAt ram a (encode (t ∷ ts))
    → a + 4 * length (encode (t ∷ ts)) ≤ 2 ^ 32
    → tag_next ram a ≡ a + 4 * (length t.body + 2)
unfolding tag_next
tag_next_lem ram a t ts words below =
    let (fits, some_words) = encode_fits ram a t ts below in
    ap (λ n. u32 (a + 4 * n)) words.0 ∙ omega (arith, fits, some_words)

module _ (fdt : Fdt) (fuel : ℕ) (extend : Bool) (locals : Locals) (dtb : ℕ) (before : View)
    (cells : (m : Machine)
      → KeepsArray locals.regs before m.ram
      → get_cell_size fdt fuel dtb m ≡ ok 1 m) where
  pub for_each_tag-Collects :
      (f a : ℕ) (ts : List Tag) (done : List Bank) (b : Banks) (m : Machine)
      → Collected locals.regs before done b m.ram
      → WordsAt before a (encode ts)
      → Apart locals.regs a ts
      → All Plain ts
      → length ts < f
      → Collects locals.regs before
          (filled done (banks_of ts))
          m
          (for_each_tag f (fold_tag fdt fuel extend locals dtb) a b m)
  unfolding for_each_tag
  for_each_tag-Collects zero a ts done b m was words apart plain enough = absurd (omega arith)
  for_each_tag-Collects (suc f) a [] done b m was words apart plain enough =
      let here = WordsAt-Keeps a (encode []) was.keeps apart.apart words in
      rw (filled-nil done)
        (record { banks = b; ram = m.ram; returns = rw (here.0) refl; collected = was })
  for_each_tag-Collects (suc f) a (t ∷ ts) done b m was words apart plain enough =
      let body = fold_tag fdt fuel extend locals dtb in
      let here = WordsAt-Keeps a (encode (t ∷ ts)) was.keeps apart.apart words in
      let (done', first, same) =
        fold_tag-Collects fdt fuel extend locals dtb before done b m a t ts was (cells m was.keeps)
          here plain.0 in
      let there = WordsAt-Keeps a (encode (t ∷ ts)) first.collected.keeps apart.apart words in
      let rest =
        for_each_tag-Collects f (a + 4 * (length t.body + 2)) ts done' first.banks
          (record m { ram = first.ram }) first.collected (next-WordsAt before a t ts words)
          (Apart-next locals.regs a t ts apart) plain.1 (omega arith) in
      rw (← same) (record {
        banks = rest.banks;
        ram = rest.ram;
        returns =
            rw (here.0, pos→== (length t.body + 2) (omega arith))
              (ap (λ r. and_then r λ s m'. for_each_tag f body (tag_next m'.ram a) s m')
                  first.returns
                ∙ ap (λ u. for_each_tag f body u first.banks (record m { ram = first.ram }))
                    (tag_next_lem first.ram a t ts there apart.below)
                ∙ rest.returns);
        collected = rest.collected;
      })
