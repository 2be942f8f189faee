-- ===== src/Boards/Raumfeld/LastLine.antt =====
-- The command line that board-raumfeld.c keeps of the tags, as a string.
use pxa_impedance_matcher.Base.{
  ℕ, ◌+◌, ◌<◌, ◌≡◌, ◌≢◌, ap, ◌∙◌, inl, inr, List, [], ◌∷◌, arith, ◌==◌, if◌then◌else◌, Bool-cases,
  ==→eq, length, All, View, Holds, suc,
}
use pxa_impedance_matcher.Atags.{atag_revision, atag_cmdline, tag_kind}
use pxa_impedance_matcher.Atags.Folds.{folded}
use pxa_impedance_matcher.Boards.Shared.{Globals, Platform}
use pxa_impedance_matcher.Boards.Shared.Matched.{IsLine}
use pxa_impedance_matcher.Boards.Raumfeld.Tags.{HasLine, seen}

module _ (p : Platform) (ram : View) (line_of : ℕ → List ℕ) where
  -- The string of the last tag that holds a command line, or `xs` if there is none.
  abbrev pub last_line : List ℕ → List ℕ → List ℕ
  last_line [] xs = xs
  last_line (t ∷ ts) xs = last_line ts (if tag_kind ram t == atag_cmdline then line_of t else xs)

  after_tag :
      (t : ℕ) (g : Globals) (xs : List ℕ)
      → HasLine p ram line_of t
      → (g.cmdline ≢ 0 → IsLine p.fuel ram g.cmdline xs)
      → (seen p ram line_of t g).cmdline ≢ 0
      → IsLine p.fuel ram
          (seen p ram line_of t g).cmdline
          (if tag_kind ram t == atag_cmdline then line_of t else xs)
  after_tag t g xs fine had = elim (Bool-cases (tag_kind ram t == atag_cmdline)) [
    | inl line ↦ rw (==→eq _ _ line) (λ given. fine (==→eq _ _ line))
    | inr other ↦ elim (Bool-cases (tag_kind ram t == atag_revision)) [
      | inl revision ↦ rw (other, revision) had
      | inr neither ↦ rw (other, neither) had
    ]
  ]

  -- A command line that is kept is the last tag's.
  pub kept-IsLine :
      (ts : List ℕ) (g : Globals) (xs : List ℕ)
      → All (HasLine p ram line_of) ts
      → (g.cmdline ≢ 0 → IsLine p.fuel ram g.cmdline xs)
      → (folded (seen p ram line_of) ts g).cmdline ≢ 0
      → IsLine p.fuel ram (folded (seen p ram line_of) ts g).cmdline (last_line ts xs)
  kept-IsLine [] g xs fine had = had
  kept-IsLine (t ∷ ts) g xs fine had =
      kept-IsLine ts (seen p ram line_of t g)
        (if tag_kind ram t == atag_cmdline then line_of t else xs) fine.1
        (after_tag t g xs fine.0 had)

-- A string whose bytes are the same, with the NUL.
pub Holds-same :
    (ram out : View) (a : ℕ) (xs : List ℕ)
    → ((i : ℕ) → i < length xs + 1 → out (a + i) ≡ ram (a + i))
    → Holds ram a xs
    → Holds out a xs
Holds-same ram out a [] kept h =
    ap out (omega arith) ∙ kept 0 (omega arith) ∙ ap ram (omega arith) ∙ h
Holds-same ram out a (x ∷ xs) kept (e, above, h) = (
  ap out (omega arith) ∙ kept 0 (omega arith) ∙ ap ram (omega arith) ∙ e,
  above,
  Holds-same ram out (a + 1) xs
      (λ i lt.
        ap out {x = a + 1 + i} {y = a + suc i} (omega arith)
        ∙ kept (suc i) (omega arith)
        ∙ ap ram (omega arith))
      h,
)
