-- ===== src/AtagsToFdt/Folded.antt =====
-- One tag of the walk of libfdt/atags_to_fdt.c, in a list of which only the memory tags are for the
-- tree.
use pxa_impedance_matcher.Base.{
  ℕ, ◌+◌, ◌*◌, ◌^◌, ◌≤◌, ◌<◌, ◌≡◌, ◌≢◌, refl, subst, ap, ◌∙◌, ◌⊎◌, List, [], ◌∷◌, ◌++◌, Bool, arith,
  length, View, ne→==,
}
use pxa_impedance_matcher.Ram.Area.{Keeps}
use pxa_impedance_matcher.Endian.{load32}
use pxa_impedance_matcher.Machine.{Machine, ok}
use pxa_impedance_matcher.Fdt.{Fdt}
use pxa_impedance_matcher.Atags.{atag_cmdline, tag_kind}
use pxa_impedance_matcher.Atags.Struct.{atag_mem, atag_initrd2, atag_serial, member, tag_mem32}
use pxa_impedance_matcher.Atags.Encoded.{Tag, encode, WordsAt}
use pxa_impedance_matcher.AtagsToFdt.{Locals, Banks, fold_tag}
use pxa_impedance_matcher.AtagsToFdt.Access.{get_cell_size}
use pxa_impedance_matcher.AtagsToFdt.Collected.{Bank, banks_of, filled}
use pxa_impedance_matcher.AtagsToFdt.Collecting.{Collected, Collects, mem_tag-Collects}

-- A memory tag, or a tag that the walk passes over.
pub data Plain (t : Tag) : Type 0 where
  memory :
      (size start : ℕ) (rest : List ℕ)
      → t.kind ≡ atag_mem
      → t.body ≡ size ∷ start ∷ rest
      → size < 2 ^ 32
      → start < 2 ^ 32
      → Plain t
  passed_over :
      t.kind ≢ atag_cmdline
      → t.kind ≢ atag_mem
      → t.kind ≢ atag_initrd2
      → t.kind ≢ atag_serial
      → Plain t

-- The words stand where they stood, where their bytes are the same.
pub WordsAt-same :
    {ram out : View} (a : ℕ) (ws : List ℕ)
    → ((b : ℕ) → a ≤ b → b < a + 4 * length ws → out b ≡ ram b)
    → WordsAt ram a ws
    → WordsAt out a ws
unfolding load32
WordsAt-same a [] same h = tt
WordsAt-same a (w ∷ ws) same (e, h) = (
  rw
      (
        same a (omega arith) (omega arith),
        same (a + 1) (omega arith) (omega arith),
        same (a + 2) (omega arith) (omega arith),
        same (a + 3) (omega arith) (omega arith),
      )
      e,
  WordsAt-same (a + 4) ws (λ b above below. same b (omega arith) (omega arith)) h,
)

-- Apart from an area that is changed, they are.
pub WordsAt-Keeps :
    {lo hi : ℕ} {ram out : View} (a : ℕ) (ws : List ℕ)
    → Keeps lo hi ram out
    → (a + 4 * length ws ≤ lo) ⊎ (hi ≤ a)
    → WordsAt ram a ws
    → WordsAt out a ws
WordsAt-Keeps a ws keeps apart h =
    WordsAt-same a ws (λ b above below. keeps b (omega (arith, apart))) h

-- The two words of a memory tag.
mem_words :
    (ram : View) (a size start : ℕ) (body rest : List ℕ) (ts : List Tag)
    → body ≡ size ∷ start ∷ rest
    → WordsAt ram (a + 4 + 4) (body ++ encode ts)
    → (member ram a tag_mem32 "size" ≡ size) × (member ram a tag_mem32 "start" ≡ start)
mem_words ram a size start body rest ts e h =
    let words = subst (λ l. WordsAt ram (a + 4 + 4) (l ++ encode ts)) e h in
    (
      ap (load32 ram) {y = a + 4 + 4} (omega arith) ∙ words.0,
      ap (load32 ram) {y = a + 4 + 4 + 4} (omega arith) ∙ (words.1).0,
    )

module _ (fdt : Fdt) (fuel : ℕ) (extend : Bool) (locals : Locals) (dtb : ℕ) (before : View) where
  pub fold_tag-Collects :
      (done : List Bank) (b : Banks) (m : Machine) (a : ℕ) (t : Tag) (ts : List Tag)
      → Collected locals.regs before done b m.ram
      → get_cell_size fdt fuel dtb m ≡ ok 1 m
      → WordsAt m.ram a (encode (t ∷ ts))
      → Plain t
      → (done' : List Bank) × Collects locals.regs before done' m
          (fold_tag fdt fuel extend locals dtb a b m)
        × (filled done' (banks_of ts) ≡ filled done (banks_of (t ∷ ts)))
  unfolding fold_tag
  fold_tag-Collects done b m a t ts was cells words (memory size start rest kind body lt lt') =
      let (is_size, is_start) = mem_words m.ram a size start t.body rest ts body ((words.1).1) in
      let is_kind : tag_kind m.ram a ≡ atag_mem = (words.1).0 ∙ kind in
      rw (is_kind, kind, body)
        (mem_tag-Collects fdt fuel dtb locals.regs before done (banks_of ts) b m a size start was
          cells is_size is_start lt lt')
  fold_tag-Collects done b m a t ts was cells words (passed_over ne1 ne2 ne3 ne4) =
      let is_kind : tag_kind m.ram a ≡ t.kind = (words.1).0 in
      (
        done,
        record {
          banks = b;
          ram = m.ram;
          returns = rw (
            is_kind,
            ne→== t.kind atag_cmdline ne1,
            ne→== t.kind atag_mem ne2,
            ne→== t.kind atag_initrd2 ne3,
            ne→== t.kind atag_serial ne4,
          );
          collected = was;
        },
        rw (ne→== t.kind atag_mem ne2) refl,
      )
