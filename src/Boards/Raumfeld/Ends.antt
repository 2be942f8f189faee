-- ===== src/Boards/Raumfeld/Ends.antt =====
-- How match_board of board-raumfeld.c ends, on either path, with the entry that was selected.
use pxa_impedance_matcher.Base.{
  ℕ, ◌≡◌, refl, sym, ap, ◌∙◌, Option, none, some, List, [], ◌∷◌, ◌++◌, append-nil, All, View,
}
use pxa_impedance_matcher.Machine.{Machine, Run, Cmd, pure, ◌>>=◌}
use pxa_impedance_matcher.Machine.Prints.{Gives, Stops, Gives-pure}
use pxa_impedance_matcher.Machine.Bind.{Gives-bind, Stops-bind, Stops-first}
use pxa_impedance_matcher.Dtbs.{Dtb}
use pxa_impedance_matcher.Dtbs.FindDtb.{Names}
use pxa_impedance_matcher.Boards.Shared.{Board, Globals, Platform}
use pxa_impedance_matcher.Boards.Shared.Matched.{HasTrees, Matched, matched, board_of, missing_text}
use pxa_impedance_matcher.Boards.Raumfeld.{use_board}
use pxa_impedance_matcher.Boards.Raumfeld.Select.{
  CanBlink, no_board_text, use_board-named, use_board-Stops,
}
use pxa_impedance_matcher.Boards.Raumfeld.Table.{RaumfeldBoard}
use pxa_impedance_matcher.Boards.Raumfeld.Table.Selected.{
  Selected, chosen, no_match, entries, sentinel,
}

-- The entry has a name, and the search for a tree of that name has what it needs.
abbrev pub Served : Platform → View → List Dtb → Option (List ℕ) → Type 0
Served p ram bs none = ⊥
Served p ram bs (some compat) = HasTrees p ram compat bs

-- How match_board ends with the entry `b`, the variables `g`, and `pre` printed on the way: with
-- the first tree that names the entry's board; with a message that there is no tree; or, without a
-- board, with the message that says so. The last two blink without end.
pub data Ends (p : Platform) (blink : CanBlink p) (rounds machid : ℕ) (ram : View) (bs : List Dtb)
    (b : Option RaumfeldBoard) (g : Globals) (pre : List ℕ) (m : Machine)
    (r : Run (Board × Globals)) : Type 0 where
  board :
      (e : RaumfeldBoard) (compat : List ℕ) (before after : List Dtb) (d : Dtb)
      → b ≡ some e
      → e.compatible ≡ some compat
      → bs ≡ before ++ d ∷ after
      → All (λ t. ¬ Names ram compat t) before
      → Names ram compat d
      → Gives p.serial.wire pre (board_of p compat e.fixup_dtb d, g) m r
      → Ends p blink rounds machid ram bs b g pre m r
  no_tree :
      (e : RaumfeldBoard) (compat : List ℕ)
      → b ≡ some e
      → e.compatible ≡ some compat
      → All (λ t. ¬ Names ram compat t) bs
      → Stops p.serial.wire (pre ++ missing_text p compat []) m r
      → Ends p blink rounds machid ram bs b g pre m r
  unknown :
      ((e : RaumfeldBoard) → b ≡ some e → e.compatible ≡ none)
      → Stops p.serial.wire (pre ++ no_board_text p blink rounds machid g) m r
      → Ends p blink rounds machid ram bs b g pre m r

-- What holds of every entry holds of the one in the middle.
pub All-middle :
    {A : Type 0} (P : A → Type 0) (before after : List A) (x : A)
    → All P (before ++ x ∷ after)
    → P x
All-middle P [] after x h = h.0
All-middle P (y ∷ before) after x h = All-middle P before after x h.1

pub some_eq : {A : Type 0} (x y : A) → some y ≡ some x → x ≡ y
some_eq x y e = cc

module _ (p : Platform) (blink : CanBlink p) (rounds machid : ℕ) (ram : View) (bs : List Dtb)
    (g : Globals) where
  -- Without a step before.
  abbrev pub End : Option RaumfeldBoard → List ℕ → Machine → Run (Board × Globals) → Type 0
  End b pre m r = Ends p blink rounds machid ram bs b g pre m r

  -- The step that the board is returned with.
  abbrev pub finish : Option RaumfeldBoard → Cmd (Board × Globals)
  finish b = use_board p rounds machid b g >>= λ board. pure (board, g)

  pub unnamed-Ends :
      (b : Option RaumfeldBoard) (m : Machine)
      → ((e : RaumfeldBoard) → b ≡ some e → e.compatible ≡ none)
      → End b [] m (finish b m)
  unnamed-Ends b m nameless = unknown nameless (
      Stops-first (use_board p rounds machid b g) _
        (use_board-Stops p blink rounds machid g b m nameless))

  named-Ends :
      (e : RaumfeldBoard) (name : Option (List ℕ)) (m : Machine)
      → e.compatible ≡ name
      → Served p ram bs name
      → m.ram ≡ ram
      → End (some e) [] m (finish (some e) m)
  named-Ends e none m is served same = absurd served
  named-Ends e (some compat) m is served same =
      outcome (use_board-named p blink rounds machid g e compat bs ram m is served same)
    where
      outcome :
          Matched p ram compat e.fixup_dtb bs [] [] m (use_board p rounds machid (some e) g m)
          → Ends p blink rounds machid ram bs (some e) g [] m (finish (some e) m)
      outcome (matched before after d split others there gives) =
          board e compat before after d refl is split others there
            (Gives-bind (use_board p rounds machid (some e) g) _ gives (Gives-pure _ gives.after))
      outcome (Matched.missing none_there stops) =
          no_tree e compat refl is none_there
            (Stops-first (use_board p rounds machid (some e) g) _ stops)

  -- What is printed before.
  pub Ends-bind :
      {A : Type 0} {pre : List ℕ} {m : Machine} {a : A} (b : Option RaumfeldBoard) (c : Cmd A)
      (k : A → Cmd (Board × Globals)) (first : Gives p.serial.wire pre a m (c m))
      → End b [] first.after (k a first.after)
      → End b pre m ((c >>= k) m)
  Ends-bind {pre} b c k first (board e compat before after d is named split others there gives) =
      board e compat before after d is named split others there
        (rw (sym (append-nil pre)) (Gives-bind c k first gives))
  Ends-bind b c k first (no_tree e compat is named none_there stops) =
      no_tree e compat is named none_there (Stops-bind c k first stops)
  Ends-bind b c k first (unknown nameless stops) = unknown nameless (Stops-bind c k first stops)

  -- The end of match_board with the entry that a search selected.
  pub entry-Ends :
      {Match : RaumfeldBoard → Type 0} (b : RaumfeldBoard) (m : Machine)
      → All (λ e. Served p ram bs e.compatible) entries
      → Selected Match entries sentinel b
      → m.ram ≡ ram
      → End (some b) [] m (finish (some b) m)
  entry-Ends b m served (chosen before after split others match) same =
      named-Ends b b.compatible m refl
        (All-middle (λ e. Served p ram bs e.compatible) before after b (rw (sym split) served)) same
  entry-Ends b m served (no_match at_end others) same =
      unnamed-Ends (some b) m λ e is. ap (λ x. x.compatible) (some_eq e b is ∙ at_end)
