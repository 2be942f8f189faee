-- ===== src/Boards/Raumfeld/Tags.antt =====
-- The tags that board-raumfeld.c reads: the revision and the command line.
use pxa_impedance_matcher.Base.{
  ℕ, ◌<◌, ◌≡◌, ap, inl, inr, List, [], ◌++◌, arith, ◌==◌, if◌then◌else◌, Bool-cases, ==→eq, codes,
  length, All, View,
}
use pxa_impedance_matcher.Endian.{load32}
use pxa_impedance_matcher.Machine.{Machine}
use pxa_impedance_matcher.Machine.Prints.{Gives, Prints-Gives, Gives-pure}
use pxa_impedance_matcher.Print.{printhex}
use pxa_impedance_matcher.Print.Output.{hex_text, echo_all, emits_all, printhex-Prints}
use pxa_impedance_matcher.Atags.{atag_revision, atag_cmdline, tag_kind, tag_body, for_each_tag}
use pxa_impedance_matcher.Atags.Walk.{Tags}
use pxa_impedance_matcher.Atags.Folds.{folded, texts, for_each_tag-Gives}
use pxa_impedance_matcher.Boards.Shared.{Globals, Platform}
use pxa_impedance_matcher.Boards.Shared.Matched.{IsLine, say_then, putstr_then}
use pxa_impedance_matcher.Boards.Raumfeld.{read_tag}

module _ (p : Platform) (ram : View) (line_of : ℕ → List ℕ) where
  -- A command line in a tag is the string that `line_of` gives, within the fuel.
  abbrev pub HasLine : ℕ → Type 0
  HasLine t = tag_kind ram t ≡ atag_cmdline → IsLine p.fuel ram (tag_body t) (line_of t)

  -- The variables after a tag.
  abbrev pub seen : ℕ → Globals → Globals
  seen t g =
      if tag_kind ram t == atag_revision
      then record g { system_rev = load32 ram (tag_body t) }
      else (if tag_kind ram t == atag_cmdline then record g { cmdline = tag_body t } else g)

  -- What is printed of a tag.
  abbrev pub tag_text : ℕ → List ℕ
  tag_text t =
      if tag_kind ram t == atag_revision
      then (echo_all p.serial (codes "System revision: ")
          ++ (emits_all p.serial (hex_text (load32 ram (tag_body t)))
              ++ (echo_all p.serial (codes "\n") ++ [])))
      else (if tag_kind ram t == atag_cmdline
          then (echo_all p.serial (codes "Got command line from atags: >")
              ++ (echo_all p.serial (line_of t) ++ (echo_all p.serial (codes "<\n") ++ [])))
          else [])

  read_tag-Gives :
      30 < p.fuel
      → (t : ℕ) (g : Globals) (m : Machine) → HasLine t
      → m.ram ≡ ram
      → Gives p.serial.wire (tag_text t) (seen t g) m (read_tag p t g m)
  unfolding read_tag
  read_tag-Gives fuel t g m fine same =
      let kind : tag_kind m.ram t ≡ tag_kind ram t = ap (λ r. tag_kind r t) same in
      let word : load32 m.ram (tag_body t) ≡ load32 ram (tag_body t) =
        ap (λ r. load32 r (tag_body t)) same in
      elim (Bool-cases (tag_kind ram t == atag_revision)) [
        | inl rev ↦
            simp (kind, rev, word)
              (say_then p (codes "System revision: ") _ (omega arith) (omega arith) λ m1 _.
                Prints-Gives (printhex p.serial (load32 ram (tag_body t))) _
                  (printhex-Prints p.serial (load32 ram (tag_body t)) m1)
                  λ m2 _.
                    say_then p (codes "\n") _ (omega arith) (omega arith) λ m3 _. Gives-pure _ m3)
        | inr no_rev ↦ elim (Bool-cases (tag_kind ram t == atag_cmdline)) [
          | inl line ↦
              simp (kind, no_rev, line)
                (say_then p (codes "Got command line from atags: >") _ (omega arith) (omega arith)
                  λ m1 _.
                    putstr_then p m.ram (tag_body t) (line_of t) _ (rw same (fine (==→eq _ _ line)))
                      λ m2 _.
                        say_then p (codes "<\n") _ (omega arith) (omega arith)
                          λ m3 _. Gives-pure _ m3)
          | inr other ↦ simp (kind, no_rev, other) (Gives-pure g m)
        ]
      ]

  -- The walk over the tags takes the revision and the command line from the last tags that hold
  -- them, and reports each.
  pub for_each_tag-read_tag :
      30 < p.fuel
      → (t : ℕ) (ts : List ℕ) (g : Globals) (m : Machine) → Tags ram t ts
      → All HasLine ts
      → length ts < p.fuel
      → m.ram ≡ ram
      → Gives p.serial.wire
          (texts tag_text ts)
          (folded seen ts g)
          m
          (for_each_tag p.fuel (read_tag p) t g m)
  for_each_tag-read_tag fuel t ts g m tags fine rounds same =
      for_each_tag-Gives p.serial.wire ram (read_tag p) HasLine seen tag_text (read_tag-Gives fuel)
        p.fuel m t ts g tags fine rounds same
