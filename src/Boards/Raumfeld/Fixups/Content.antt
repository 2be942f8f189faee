-- ===== src/Boards/Raumfeld/Fixups/Content.antt =====
-- What a device tree says after the fixups of board-raumfeld.c, where libfdt keeps its contract.
use pxa_impedance_matcher.Base.{
  ℕ, suc, ◌+◌, ◌%◌, ◌^◌, ◌<◌, ◌≡◌, refl, sym, ap, ◌∙◌, ◌≢◌, inr, some, List, [], ◌∷◌, ◌++◌, arith,
  codes, length, View, Holds,
}
use pxa_impedance_matcher.Base.Int.{ℤ, pos}
use pxa_impedance_matcher.Fdt.{big_endian, setprop_u32}
use pxa_impedance_matcher.Fdt.Contract.{
  SetpropStringContract, bytes_of, big_endian_bytes, content, SetpropContract,
}
use pxa_impedance_matcher.Fdt.Cells.{bytes_of-big_endian, setprop-Sets, bytes_of-Holds}
use pxa_impedance_matcher.Machine.{Machine, ok}
use pxa_impedance_matcher.Str.Length.{strlen_lem}
use pxa_impedance_matcher.Boards.Shared.{Board, Globals, Platform}
use pxa_impedance_matcher.Boards.Raumfeld.Fixups.{set_string, raumfeld_fixup_dtb_common}
use pxa_impedance_matcher.Boards.Raumfeld.Fixups.Written.{
  with_revision, with_string, common-bootargs,
}

small_bytes : (v : ℕ) → v < 2 ^ 8 → big_endian_bytes v ≡ 0 ∷ 0 ∷ 0 ∷ v ∷ []
small_bytes v lt = ground arith

-- Two calls of libfdt that set a property, and return 0.
abbrev pub Revises : Platform → Globals → ℕ → View → Type 0
Revises p g tree ram =
    let call = setprop_u32 p.fdt ram tree (pos 0) (codes "hw-revision") (g.system_rev % 2 ^ 8) in
    SetpropContract p.fdt ram tree (codes "/") (codes "hw-revision")
      (bytes_of (big_endian (g.system_rev % 2 ^ 8)) 0 4) call
    × (call.1 ≡ pos 0)

abbrev pub SetsLine : Platform → Globals → ℕ → ℕ → ℕ → View → Type 0
SetsLine p g tree n len ram =
    let call = p.fdt.setprop ram tree (pos n) (codes "bootargs") ram g.cmdline (len + 1 + 1) in
    SetpropContract p.fdt ram tree (codes "/chosen") (codes "bootargs")
      (bytes_of ram g.cmdline (len + 1 + 1)) call
    × (call.1 ≡ pos 0)

-- The tree says the revision and the command line, with its NUL and the byte `last`, and of every
-- other name what it said.
pub record SaysLine (p : Platform) (g : Globals) (tree : ℕ) (xs : List ℕ) (last : ℕ)
    (ram out : View) : Type 0 where
  pub revision :
      content p.fdt out tree (codes "/") (codes "hw-revision")
      ≡ some (0 ∷ 0 ∷ 0 ∷ (g.system_rev % 2 ^ 8) ∷ [])
  pub line :
      content p.fdt out tree (codes "/chosen") (codes "bootargs") ≡ some (xs ++ 0 ∷ last ∷ [])
  pub others :
      (path name : List ℕ)
      → name ≢ codes "hw-revision"
      → name ≢ codes "bootargs"
      → content p.fdt out tree path name ≡ content p.fdt ram tree path name

-- The two calls of the common fixup, one after the other.
pub common-SaysLine :
    (p : Platform) (g : Globals) (board : Board) (ram : View) (n : ℕ) (xs : List ℕ)
    → let revised = with_revision p g board ram in
      Holds revised g.cmdline xs
      → Revises p g board.dtb ram
      → SetsLine p g board.dtb n (length xs) revised
      → SaysLine p g board.dtb xs (revised (g.cmdline + length xs + 1)) ram (
          with_string p g board revised
            (pos n)
            (codes "bootargs")
            revised
            g.cmdline
            (length xs + 1 + 1))
common-SaysLine p g board ram n xs text (first, zero1) (second, zero2) =
    let revised = with_revision p g board ram in
    let revision = setprop-Sets first zero1 in
    let bootargs = setprop-Sets second zero2 in
    record {
      revision =
          bootargs.others (codes "/") (codes "hw-revision") (inr (λ e. cc))
          ∙ revision.now
          ∙ ap some (
              bytes_of-big_endian (g.system_rev % 2 ^ 8) (omega arith)
              ∙ small_bytes (g.system_rev % 2 ^ 8) (omega arith));
      line =
          bootargs.now
          ∙ ap some (
              ap (bytes_of revised g.cmdline) {y = suc (suc (length xs))} (omega arith)
              ∙ bytes_of-Holds revised g.cmdline xs text);
      others = λ path name ne1 ne2.
          bootargs.others path name (inr ne2) ∙ revision.others path name (inr ne1);
    }

module _ (p : Platform) (g : Globals) (board : Board) (m : Machine) where
  -- With a command line within the fuel, a root at offset 0, a /chosen node, and a libfdt that sets
  -- both properties and returns 0, the common Raumfeld fixup returns, and the tree says the
  -- revision's low byte as hw-revision, a big-endian word, and as bootargs the command line with its
  -- NUL and the byte behind it. A property of another name says what it said.
  pub common-content :
      (n : ℕ) (xs path' name' : List ℕ)
      → let ram = with_revision p g board m.ram in
        g.cmdline ≢ 0
        → p.fdt.path_offset m.ram board.dtb (codes "/") ≡ pos 0
        → p.fdt.path_offset ram board.dtb (codes "/chosen") ≡ pos n
        → Holds ram g.cmdline xs
        → length xs < p.fuel
        → name' ≢ codes "hw-revision"
        → name' ≢ codes "bootargs"
        → (let call =
              setprop_u32 p.fdt m.ram board.dtb
                (pos 0)
                (codes "hw-revision")
                (g.system_rev % 2 ^ 8) in
            SetpropContract p.fdt m.ram board.dtb
              (codes "/")
              (codes "hw-revision")
              (bytes_of (big_endian (g.system_rev % 2 ^ 8)) 0 4)
              call
            × (call.1 ≡ pos 0))
        → (let call =
              p.fdt.setprop ram board.dtb
                (pos n)
                (codes "bootargs")
                ram
                g.cmdline
                (length xs + 1 + 1) in
            SetpropContract p.fdt ram board.dtb
              (codes "/chosen")
              (codes "bootargs")
              (bytes_of ram g.cmdline (length xs + 1 + 1))
              call
            × (call.1 ≡ pos 0))
        → (m' : Machine) × (raumfeld_fixup_dtb_common p g board m ≡ ok tt m')
          × (content p.fdt m'.ram board.dtb (codes "/") (codes "hw-revision")
              ≡ some (0 ∷ 0 ∷ 0 ∷ (g.system_rev % 2 ^ 8) ∷ []))
          × (content p.fdt m'.ram board.dtb (codes "/chosen") (codes "bootargs")
              ≡ some (xs ++ 0 ∷ ram (g.cmdline + length xs + 1) ∷ []))
          × (content p.fdt m'.ram board.dtb path' name' ≡ content p.fdt m.ram board.dtb path' name')
  common-content n xs path' name' given root chosen text fuel ne1 ne2 first second =
      let ram = with_revision p g board m.ram in
      let said = common-SaysLine p g board m.ram n xs text first second in
      (
        record m {
          ram =
              with_string p g board ram (pos n) (codes "bootargs") ram g.cmdline
                (length xs + 1 + 1);
        },
        common-bootargs p g board m (pos n) xs given chosen refl text fuel,
        said.revision,
        said.line,
        said.others path' name' ne1 ne2,
      )

-- Lists of different lengths.
longer : (xs : List ℕ) (b : ℕ) → ¬ (xs ++ 0 ∷ b ∷ [] ≡ xs ++ 0 ∷ [])
longer [] b e = cc
longer (x ∷ xs) b e = longer xs b (tail x _ _ e)
  where
    tail : (y : ℕ) (us vs : List ℕ) → y ∷ us ≡ y ∷ vs → us ≡ vs
    tail y us vs h = cc

some_eq : (us vs : List ℕ) → some us ≡ some vs → us ≡ vs
some_eq us vs h = cc

-- With a string within the fuel and a libfdt that sets the property and returns 0, set_string
-- returns and leaves the string, its NUL and the byte behind it as the property, which is not what
-- is documented of fdt_setprop_string.
pub set_string-overlong :
    (p : Platform) (dtb : ℕ) (off : ℤ) (path name xs : List ℕ) (v : View) (str : ℕ) (m : Machine)
    → Holds v str xs
    → length xs < p.fuel
    → SetpropContract p.fdt m.ram dtb path name
        (bytes_of v str (length xs + 1 + 1))
        (p.fdt.setprop m.ram dtb off name v str (length xs + 1 + 1))
    → (p.fdt.setprop m.ram dtb off name v str (length xs + 1 + 1)).1 ≡ pos 0
    → (m' : Machine) × (set_string p dtb off name v str m ≡ ok tt m')
      × (content p.fdt m'.ram dtb path name ≡ some (xs ++ 0 ∷ v (str + length xs + 1) ∷ []))
      × (¬ SetpropStringContract p.fdt m.ram dtb path name xs (m'.ram, pos 0))
unfolding set_string
set_string-overlong p dtb off path name xs v str m text fuel keeps zero' =
    let done = setprop-Sets keeps zero' in
    let now =
      done.now
      ∙ ap some (
          ap (bytes_of v str) {y = suc (suc (length xs))} (omega arith)
          ∙ bytes_of-Holds v str xs text) in
    (
      record m { ram = (p.fdt.setprop m.ram dtb off name v str (length xs + 1 + 1)).0 },
      rw (strlen_lem p.fuel v str xs text fuel),
      now,
      λ documented.
          longer xs (v (str + length xs + 1))
            (some_eq _ _ (sym now ∙ (setprop-Sets documented refl).now)),
    )
