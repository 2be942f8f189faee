-- ===== src/Tests/RaumfeldSees.antt =====
-- The whole loader for a Raumfeld connector.
use pxa_impedance_matcher.Base.{
  ℕ, ◌∙◌, refl, sym, List, [], arith, All, ◌≡◌, ◌∷◌, ◌++◌, ap, none, some,
}
use pxa_impedance_matcher.Endian.{load32}
use pxa_impedance_matcher.Dtbs.{Dtb}
use pxa_impedance_matcher.Dtbs.FindDtb.{Names}
use pxa_impedance_matcher.Boards.Shared.{Fixup}
use pxa_impedance_matcher.Boards.Shared.Matched.{HasTrees, board_of}
use pxa_impedance_matcher.Boards.Raumfeld.Table.Selected.{entries, Selected, IsMachine, sentinel}
use pxa_impedance_matcher.Boards.Raumfeld.Tags.{tag_text}
use pxa_impedance_matcher.Boards.Raumfeld.Ends.{Served, All-middle}
use pxa_impedance_matcher.Boards.Raumfeld.Table.{RaumfeldBoard}
use pxa_impedance_matcher.Atags.Folds.{texts}
use pxa_impedance_matcher.Matcher.{main}
use pxa_impedance_matcher.Matcher.Raumfeld.{raumfeld_matcher}
use pxa_impedance_matcher.Matcher.Raumfeld.Sees.{CanHand, Handed, raumfeld-Handed}
use pxa_impedance_matcher.Tests.RaumfeldLoader.{build, globals}
use pxa_impedance_matcher.Tests.Setup.{platform, trees}
use pxa_impedance_matcher.Tests.RaumfeldMatch.{tags_at, tag_list, line_of}
use pxa_impedance_matcher.Tests.Connector.{
  ram, start, loader, hand, entries-Served, loader-CanBlink, tag_list-Tags, lines,
}

-- A connector's entry has the common fixup.
connectors : All (λ e. e.machid ≡ 2414 → e.fixup_dtb ≡ some Fixup.fixup_common) entries
unfolding entries
connectors = (
  λ e. absurd (omega (arith, e)),
  (λ e. refl, (λ e. refl, (λ e. refl, (λ e. refl, (λ e. refl, tt))))),
)

hands :
    (b : RaumfeldBoard) (compat : List ℕ) (before after : List Dtb) (d : Dtb)
    → Selected (IsMachine 2414 globals.system_rev) entries sentinel b
    → b.compatible ≡ some compat
    → trees ≡ before ++ d ∷ after
    → Names ram compat d
    → CanHand loader build globals (b'q' ∷ []) ram (board_of loader compat b.fixup_dtb d)
unfolding loader platform
hands b compat before after d (Selected.no_match at_end others) named split there =
    absurd (nameless (sym (ap (λ x. x.compatible) at_end) ∙ named))
  where
    nameless : ¬ none ≡ some compat
    nameless e = cc
hands b compat before after d (Selected.chosen front back is others match) named split there =
    hand_over (
      rw named at (
        All-middle (λ e. Served loader ram trees e.compatible) front back b
          (rw (sym is) entries-Served)))
  where
    at : d.addr ≡ 0x1000
    at = All-middle (λ t. t.addr ≡ 0x1000) before after d (rw (sym split) (refl, tt))

    hand_over :
        HasTrees loader ram compat trees
        → CanHand loader build globals (b'q' ∷ []) ram (board_of loader compat b.fixup_dtb d)
    hand_over trees' =
        hand (board_of loader compat b.fixup_dtb d) at
          (record {
            fuel = omega arith;
            version_chars = omega arith;
            version_fuel = omega arith;
            name_chars = trees'.chars;
            name_fuel = trees'.fuel_text;
            has_kernel = λ e. refl;
            apart = λ dest e. cc;
          })
          (All-middle (λ e. e.machid ≡ 2414 → e.fixup_dtb ≡ some Fixup.fixup_common) front back b
            (rw (sym is) connectors) match.0)

raumfeld-Handed_example :
    (b : RaumfeldBoard) × Selected (IsMachine 2414 globals.system_rev) entries sentinel b
    × Handed loader loader-CanBlink build 3 2414 ram trees
        (some b)
        globals
        (b'q' ∷ [])
        (texts (tag_text loader ram line_of) tag_list)
        start
        (main loader build (raumfeld_matcher loader 3 0) 2414 tags_at start)
unfolding loader platform load32
raumfeld-Handed_example =
    raumfeld-Handed loader loader-CanBlink build 3 2414 trees 0 line_of tags_at tag_list start
      (λ e. omega (arith, e)) (omega arith) (omega arith) (omega arith) tag_list-Tags lines
      (omega arith) entries-Served hands
