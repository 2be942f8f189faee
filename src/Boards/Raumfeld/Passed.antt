-- ===== src/Boards/Raumfeld/Passed.antt =====
-- What board-raumfeld.c reads of a device tree that is passed to it: revision, command line, name.
use pxa_impedance_matcher.Base.{
  ◌^◌, ◌∙◌, ℕ, ◌<◌, ◌≡◌, Option, none, some, List, [], ◌++◌, if◌then◌else◌, arith, codes, View,
  IsChars, Bool-cases, inl, inr, subst, sym, refl, ap,
}
use pxa_impedance_matcher.Base.Int.{ℤ, pos, is_neg}
use pxa_impedance_matcher.Endian.{load32, swab32}
use pxa_impedance_matcher.Fdt.Contract.{bytes_of, big_endian_bytes}
use pxa_impedance_matcher.Fdt.{Property, value, missing}
use pxa_impedance_matcher.Machine.{Machine}
use pxa_impedance_matcher.Machine.Prints.{Gives, Gives-pure}
use pxa_impedance_matcher.Machine.Bind.{Gives-bind}
use pxa_impedance_matcher.Print.Output.{echo_all}
use pxa_impedance_matcher.Boards.Shared.{Globals, Platform}
use pxa_impedance_matcher.Boards.Shared.Matched.{IsLine, say_then, putstr_then}
use pxa_impedance_matcher.Boards.Raumfeld.Table.{RaumfeldBoard}
use pxa_impedance_matcher.Boards.Raumfeld.Table.Selected.{
  Selected, HasName, entries, sentinel, find_compatible-rboards,
}
use pxa_impedance_matcher.Boards.Raumfeld.{
  dtb_revision, dtb_bootargs, dtb_cmdline, dtb_board, from_dtb,
}

-- The entry that the name selects, none without a name.
abbrev pub Chosen : Property → List ℕ → Option RaumfeldBoard → Type 0
Chosen (value _ _) name b =
    (e : RaumfeldBoard) × (b ≡ some e) × Selected (HasName name) entries sentinel e
Chosen (missing _) name b = b ≡ none

abbrev pub revision_of : Property → View → ℕ → ℕ
revision_of (value val _) ram rev = load32 ram val
revision_of (missing _) ram rev = rev

abbrev pub bootargs_of : Property → ℕ
bootargs_of (value val _) = val
bootargs_of (missing _) = 0

-- The node is looked for first.
abbrev pub cmdline_of : ℤ → Property → ℕ
cmdline_of off q = if is_neg off then 0 else bootargs_of q

-- The properties that are read, and the node of the command line.
module _ (p : Platform) (ram : View) (dtb : ℕ) where
  abbrev pub hw_revision : Property
  hw_revision = p.fdt.getprop ram dtb (pos 0) (codes "hw-revision")

  abbrev pub chosen_node : ℤ
  chosen_node = p.fdt.path_offset ram dtb (codes "/chosen")

  abbrev pub bootargs : Property
  bootargs = p.fdt.getprop ram dtb chosen_node (codes "bootargs")

  abbrev pub compatible_prop : Property
  compatible_prop = p.fdt.getprop ram dtb (pos 0) (codes "compatible")

module _ (p : Platform) where
  -- A string, with what stands before it.
  abbrev pub quoted : List ℕ → List ℕ → List ℕ → List ℕ
  quoted before xs behind =
      echo_all p.serial before ++ (echo_all p.serial xs ++ (echo_all p.serial behind ++ []))

  abbrev pub revision_text : Property → List ℕ
  revision_text (value _ _) = []
  revision_text (missing _) =
      echo_all p.serial (codes "Error reading /hw-revision from DTB!\n") ++ []

  abbrev pub bootargs_text : Property → List ℕ → List ℕ
  bootargs_text (value _ _) args = quoted (codes "Got command line from DTB: >") args (codes "<\n")
  bootargs_text (missing _) args =
      echo_all p.serial (codes "Error reading /chosen/bootargs from DTB!\n") ++ []

  abbrev pub cmdline_text : ℤ → Property → List ℕ → List ℕ
  cmdline_text off q args =
      if is_neg off
      then (echo_all p.serial (codes "Error looking for /chosen node!\n") ++ [])
      else bootargs_text q args

  abbrev pub compatible_text : Property → List ℕ → List ℕ
  compatible_text (value _ _) name =
      quoted (codes "Got compatible string from passed DTB: ") name (codes "\n")
  compatible_text (missing _) name =
      echo_all p.serial (codes "Error reading /compatible from DTB!\n") ++ []

  -- The strings of the tree, within the fuel.
  pub record HasStrings (ram : View) (dtb : ℕ) (args name : List ℕ) : Type 0 where
    pub args_line : (val len : ℕ) → bootargs p ram dtb ≡ value val len → IsLine p.fuel ram val args
    pub name_line :
        (val len : ℕ) → compatible_prop p ram dtb ≡ value val len → IsLine p.fuel ram val name
    pub name_chars : IsChars name

  -- The variables that the tree sets.
  abbrev pub dtb_variables : View → ℕ → Globals → Globals
  dtb_variables ram dtb g = record {
    system_rev = revision_of (hw_revision p ram dtb) ram g.system_rev;
    cmdline = cmdline_of (chosen_node p ram dtb) (bootargs p ram dtb);
  }

  abbrev pub dtb_text : View → ℕ → List ℕ → List ℕ → List ℕ
  dtb_text ram dtb args name =
      revision_text (hw_revision p ram dtb)
      ++ (cmdline_text (chosen_node p ram dtb) (bootargs p ram dtb) args
          ++ (compatible_text (compatible_prop p ram dtb) name ++ []))

module _ (p : Platform) (fuel : 50 < p.fuel) where
  dtb_revision-Gives :
      (dtb rev : ℕ) (m : Machine) (q : Property)
      → p.fdt.getprop m.ram dtb (pos 0) (codes "hw-revision") ≡ q
      → Gives p.serial.wire
          (revision_text p q)
          (revision_of q m.ram rev)
          m
          (dtb_revision p dtb rev m)
  unfolding dtb_revision
  dtb_revision-Gives dtb rev m (value val len) e = rw e (Gives-pure _ m)
  dtb_revision-Gives dtb rev m (missing err) e = rw e (
      say_then p (codes "Error reading /hw-revision from DTB!\n") _ (omega arith) (omega arith)
        λ m1 _. Gives-pure _ m1)

  dtb_bootargs-Gives :
      (dtb : ℕ) (off : ℤ) (args : List ℕ) (m : Machine) (q : Property)
      → p.fdt.getprop m.ram dtb off (codes "bootargs") ≡ q
      → ((val : ℕ) (len : ℕ) → q ≡ value val len → IsLine p.fuel m.ram val args)
      → Gives p.serial.wire (bootargs_text p q args) (bootargs_of q) m (dtb_bootargs p dtb off m)
  unfolding dtb_bootargs
  dtb_bootargs-Gives dtb off args m (value val len) e line = rw e (
      say_then p (codes "Got command line from DTB: >") _ (omega arith) (omega arith) λ m1 _.
        putstr_then p m.ram val args _ (line val len refl)
          λ m2 _. say_then p (codes "<\n") _ (omega arith) (omega arith) λ m3 _. Gives-pure _ m3)
  dtb_bootargs-Gives dtb off args m (missing err) e line = rw e (
      say_then p (codes "Error reading /chosen/bootargs from DTB!\n") _ (omega arith) (omega arith)
        λ m1 _. Gives-pure _ m1)

  dtb_cmdline-Gives :
      (dtb : ℕ) (args : List ℕ) (m : Machine) (off : ℤ) (q : Property)
      → p.fdt.path_offset m.ram dtb (codes "/chosen") ≡ off
      → p.fdt.getprop m.ram dtb off (codes "bootargs") ≡ q
      → ((val : ℕ) (len : ℕ) → q ≡ value val len → IsLine p.fuel m.ram val args)
      → Gives p.serial.wire (cmdline_text p off q args) (cmdline_of off q) m (dtb_cmdline p dtb m)
  unfolding dtb_cmdline
  dtb_cmdline-Gives dtb args m off q at is line = elim (Bool-cases (is_neg off)) [
    | inl no_node ↦
        rw (at, no_node)
          (say_then p (codes "Error looking for /chosen node!\n") _ (omega arith) (omega arith)
            λ m1 _. Gives-pure _ m1)
    | inr node ↦ rw (at, node) (dtb_bootargs-Gives dtb off args m q is line)
  ]

  dtb_board-Gives :
      (dtb : ℕ) (name : List ℕ) (m : Machine) (q : Property)
      → p.fdt.getprop m.ram dtb (pos 0) (codes "compatible") ≡ q
      → ((val : ℕ) (len : ℕ) → q ≡ value val len → IsLine p.fuel m.ram val name)
      → IsChars name
      → (b : Option RaumfeldBoard) × Chosen q name b
        × Gives p.serial.wire (compatible_text p q name) b m (dtb_board p dtb m)
  unfolding dtb_board
  dtb_board-Gives dtb name m (value val len) is line chars =
      let (text, small, short) = line val len refl in
      let (e, found, selected) =
        find_compatible-rboards p.fuel m.ram val name text chars (omega arith) in
      (
        some e,
        (e, refl, selected),
        rw is (
            say_then p (codes "Got compatible string from passed DTB: ") _ (omega arith)
              (omega arith)
              λ m1 _.
                putstr_then p m.ram val name _ (text, small, short)
                  λ m2 _.
                    say_then p (codes "\n") _ (omega arith) (omega arith)
                      λ m3 _. rw found (Gives-pure (some e) m3)),
      )
  dtb_board-Gives dtb name m (missing err) is line chars = (
    none,
    refl,
    rw is (
        say_then p (codes "Error reading /compatible from DTB!\n") _ (omega arith) (omega arith)
          λ m1 _. Gives-pure _ m1),
  )

  pub from_dtb-Gives :
      (dtb : ℕ) (g : Globals) (args name : List ℕ) (m : Machine)
      → HasStrings p m.ram dtb args name
      → (b : Option RaumfeldBoard) × Chosen (compatible_prop p m.ram dtb) name b
        × Gives p.serial.wire
            (dtb_text p m.ram dtb args name)
            (b, dtb_variables p m.ram dtb g)
            m
            (from_dtb p dtb g m)
  unfolding from_dtb
  from_dtb-Gives dtb g args name m strings =
      let rev = dtb_revision-Gives dtb g.system_rev m (hw_revision p m.ram dtb) refl in
      let e1 = rev.same_ram in
      let line =
        dtb_cmdline-Gives dtb args rev.after (chosen_node p m.ram dtb) (bootargs p m.ram dtb)
          (ap (λ r. chosen_node p r dtb) e1)
          (ap (λ r. p.fdt.getprop r dtb (chosen_node p m.ram dtb) (codes "bootargs")) e1)
          (λ v l e. subst (λ r. IsLine p.fuel r v args) (sym e1) (strings.args_line v l e)) in
      let e2 = line.same_ram ∙ e1 in
      let (b, chosen, last) =
        dtb_board-Gives dtb name line.after (compatible_prop p m.ram dtb)
          (ap (λ r. compatible_prop p r dtb) e2)
          (λ v l e. subst (λ r. IsLine p.fuel r v name) (sym e2) (strings.name_line v l e))
          strings.name_chars in
      (
        b,
        chosen,
        Gives-bind (dtb_revision p dtb g.system_rev) _ rev (
            Gives-bind (dtb_cmdline p dtb) _ line
              (Gives-bind (dtb_board p dtb) _ last (Gives-pure _ last.after))),
      )

-- A word whose bytes are those of a number in big-endian order is read swapped.
load32-big_endian_bytes :
    (ram : View) (a v : ℕ)
    → v < 2 ^ 32
    → bytes_of ram a 4 ≡ big_endian_bytes v
    → load32 ram a ≡ swab32 v
unfolding load32 swab32
load32-big_endian_bytes ram a v lt e = ground arith

-- Where the property hw-revision of the passed tree holds a 32-bit number in big-endian order, as
-- fdt_setprop_u32 writes it, match_board prints nothing and takes the number with its bytes
-- swapped for the revision.
pub dtb_revision-swapped :
    (p : Platform) (dtb rev val len v : ℕ) (m : Machine)
    → v < 2 ^ 32
    → p.fdt.getprop m.ram dtb (pos 0) (codes "hw-revision") ≡ value val len
    → bytes_of m.ram val 4 ≡ big_endian_bytes v
    → Gives p.serial.wire [] (swab32 v) m (dtb_revision p dtb rev m)
unfolding dtb_revision
dtb_revision-swapped p dtb rev val len v m lt is bytes =
    rw (is, load32-big_endian_bytes m.ram val v lt bytes) (Gives-pure (swab32 v) m)
