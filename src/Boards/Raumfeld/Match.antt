-- ===== src/Boards/Raumfeld/Match.antt =====
-- The whole of match_board of board-raumfeld.c.
use pxa_impedance_matcher.Base.{
  ℕ, ◌<◌, ◌≡◌, refl, sym, ◌≢◌, Option, some, List, [], append-nil, ne→==, length, All, View,
}
use pxa_impedance_matcher.Machine.{Machine}
use pxa_impedance_matcher.Machine.Prints.{Gives, Gives-pure}
use pxa_impedance_matcher.Machine.Bind.{Gives-bind}
use pxa_impedance_matcher.Dtbs.{Dtb}
use pxa_impedance_matcher.Atags.{for_each_tag}
use pxa_impedance_matcher.Atags.Walk.{Tags}
use pxa_impedance_matcher.Atags.Folds.{folded, texts}
use pxa_impedance_matcher.Boards.Shared.{Globals, Platform}
use pxa_impedance_matcher.Boards.Raumfeld.{read_tag, from_dtb, from_atags, match_board}
use pxa_impedance_matcher.Boards.Raumfeld.Select.{CanBlink}
use pxa_impedance_matcher.Boards.Raumfeld.Table.{RaumfeldBoard, rboards, find_machid}
use pxa_impedance_matcher.Boards.Raumfeld.Table.Selected.{
  Selected, IsMachine, entries, sentinel, find_machid-rboards,
}
use pxa_impedance_matcher.Boards.Raumfeld.Tags.{HasLine, seen, tag_text, for_each_tag-read_tag}
use pxa_impedance_matcher.Fdt.{Property, value, missing}
use pxa_impedance_matcher.Boards.Raumfeld.Passed.{
  HasStrings, Chosen, compatible_prop, dtb_variables, dtb_text, from_dtb-Gives,
}
use pxa_impedance_matcher.Boards.Raumfeld.Ends.{
  Served, Ends, End, finish, unnamed-Ends, Ends-bind, entry-Ends,
}

module _ (p : Platform) (line_of : ℕ → List ℕ) where
  -- The variables behind the tags.
  abbrev pub variables : View → ℕ → List ℕ → Globals
  variables ram system_rev ts =
      folded (seen p ram line_of) ts (record { system_rev = system_rev; cmdline = 0 })

module _ (p : Platform) (blink : CanBlink p) (rounds machid : ℕ) (bs : List Dtb)
    (line_of : ℕ → List ℕ) where
  from_atags-Gives :
      (tags : ℕ) (ts : List ℕ) (g : Globals) (m : Machine) (b : RaumfeldBoard)
      → 30 < p.fuel
      → Tags m.ram tags ts
      → All (HasLine p m.ram line_of) ts
      → length ts < p.fuel
      → find_machid rboards machid (folded (seen p m.ram line_of) ts g).system_rev ≡ some b
      → Gives p.serial.wire
          (texts (tag_text p m.ram line_of) ts)
          (some b, folded (seen p m.ram line_of) ts g)
          m
          (from_atags p machid tags g m)
  unfolding from_atags
  from_atags-Gives tags ts g m b fuel walk fine count is =
      let first = for_each_tag-read_tag p m.ram line_of fuel tags ts g m walk fine count refl in
      let next = Gives-pure (some b, folded (seen p m.ram line_of) ts g) first.after in
      rw (sym (append-nil (texts (tag_text p m.ram line_of) ts)))
        (Gives-bind (for_each_tag p.fuel (read_tag p) tags g) _ first (rw is next))

  -- On a machine that is not 0xffffffff, with a list of tags that ends, in which each command line
  -- is a string (HasLine), a chain of trees in which each name of the table can be looked for
  -- (Served), fuel for the tags and the messages, and a board that can blink (CanBlink),
  -- match_board of the Raumfeld boards reports the tags, takes the entry of the table that the
  -- machine and the last revision tag select, and returns the first tree with its name, with the
  -- last command line kept; or it says that there is no entry or no tree, and blinks without end.
  pub match_board-from_atags :
      (tags : ℕ) (ts : List ℕ) (system_rev : ℕ) (m : Machine)
      → machid ≢ 0xffffffff
      → 30 < p.fuel
      → Tags m.ram tags ts
      → All (HasLine p m.ram line_of) ts
      → length ts < p.fuel
      → All (λ e. Served p m.ram bs e.compatible) entries
      → (b : RaumfeldBoard) × Selected
          (IsMachine machid (variables p line_of m.ram system_rev ts).system_rev)
          entries
          sentinel
          b
        × Ends p blink rounds machid m.ram bs
            (some b)
            (variables p line_of m.ram system_rev ts)
            (texts (tag_text p m.ram line_of) ts)
            m
            (match_board p rounds machid tags system_rev m)
  unfolding match_board
  match_board-from_atags tags ts system_rev m not_dtb fuel walk fine count served =
      let g0 : Globals = record { system_rev = system_rev; cmdline = 0 } in
      let g = variables p line_of m.ram system_rev ts in
      let (b, is, selected) = find_machid-rboards machid g.system_rev in
      let first = from_atags-Gives tags ts g0 m b fuel walk fine count is in
      (
        b,
        selected,
        rw (ne→== machid 0xffffffff not_dtb) (
            Ends-bind p blink rounds machid m.ram bs g (some b) (from_atags p machid tags g0) _
              first
              (entry-Ends p blink rounds machid m.ram bs g b first.after served selected
                first.same_ram)),
      )

-- A board that a passed tree's name selects ends as one that the machine selects does.
picked-Ends :
    (p : Platform) (blink : CanBlink p) (rounds machid : ℕ) (ram : View) (bs : List Dtb)
    (g : Globals) (q : Property) (name : List ℕ) (b : Option RaumfeldBoard) (m : Machine)
    → All (λ e. Served p ram bs e.compatible) entries
    → Chosen q name b
    → m.ram ≡ ram
    → End p blink rounds machid ram bs g b [] m (finish p blink rounds machid ram bs g b m)
picked-Ends p blink rounds machid ram bs g (value _ _) name b m served (e, is, selected) same =
    rw is (entry-Ends p blink rounds machid ram bs g e m served selected same)
picked-Ends p blink rounds machid ram bs g (missing _) name b m served is same =
    unnamed-Ends p blink rounds machid ram bs g b m λ e found. cc

module _ (p : Platform) (blink : CanBlink p) (rounds : ℕ) (bs : List Dtb) where
  -- On the machine 0xffffffff, with a passed tree whose command line and name, where it has them,
  -- are strings (HasStrings), a chain of trees in which each name of the table can be looked for
  -- (Served), fuel for the messages, and a board that can blink (CanBlink), match_board of the
  -- Raumfeld boards reports what it reads of the passed tree, takes the entry of the table that the
  -- tree's name selects, and returns the first tree of the chain with the entry's name, with the
  -- revision and the command line kept; or it says that there is no entry or no tree, and blinks
  -- without end.
  pub match_board-from_dtb :
      (dtb system_rev : ℕ) (args name : List ℕ) (m : Machine) (fuel : 50 < p.fuel)
      → HasStrings p m.ram dtb args name
      → All (λ e. Served p m.ram bs e.compatible) entries
      → (b : Option RaumfeldBoard) × Chosen (compatible_prop p m.ram dtb) name b
        × Ends p blink rounds 0xffffffff m.ram bs b
            (dtb_variables p m.ram dtb (record { system_rev = system_rev; cmdline = 0 }))
            (dtb_text p m.ram dtb args name)
            m
            (match_board p rounds 0xffffffff dtb system_rev m)
  unfolding match_board
  match_board-from_dtb dtb system_rev args name m fuel strings served =
      let g0 : Globals = record { system_rev = system_rev; cmdline = 0 } in
      let g = dtb_variables p m.ram dtb g0 in
      let (b, picked, first) = from_dtb-Gives p fuel dtb g0 args name m strings in
      (
        b,
        picked,
        Ends-bind p blink rounds 0xffffffff m.ram bs g b (from_dtb p dtb g0) _ first (
            picked-Ends p blink rounds 0xffffffff m.ram bs g (compatible_prop p m.ram dtb) name b
              first.after served picked first.same_ram),
      )
