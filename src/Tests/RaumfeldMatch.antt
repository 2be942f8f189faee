-- ===== src/Tests/RaumfeldMatch.antt =====
-- The whole of the Raumfeld match_board, with tags and with a passed tree.
use pxa_impedance_matcher.Base.{
  ℕ, ◌-◌, ◌<◌, ◌≡◌, refl, some, Option, inl, inr, List, [], ◌∷◌, arith, ltb, ◌==◌, if◌then◌else◌,
  Bool-cases, codes, length, All, View, lit, IsBytes, IsChars,
}
use pxa_impedance_matcher.Base.Int.{negsuc}
use pxa_impedance_matcher.Endian.{load32, fdt32_to_cpu, swab32}
use pxa_impedance_matcher.Fdt.{Fdt, value, missing}
use pxa_impedance_matcher.Fdt.Header.{header_magic, header_totalsize}
use pxa_impedance_matcher.Machine.{Machine, ok}
use pxa_impedance_matcher.Machine.Prints.{Gives}
use pxa_impedance_matcher.Dtbs.{next_dtb}
use pxa_impedance_matcher.Dtbs.FindDtb.{Fits, link, end}
use pxa_impedance_matcher.Atags.{atag_revision, atag_cmdline, tag_next, for_each_tag}
use pxa_impedance_matcher.Atags.Encoded.{Tag, collect, for_each_tag-encode}
use pxa_impedance_matcher.Atags.Walk.{Tags}
use pxa_impedance_matcher.Atags.Folds.{texts}
use pxa_impedance_matcher.Boards.Shared.{Platform}
use pxa_impedance_matcher.Boards.Shared.Matched.{HasTrees}
use pxa_impedance_matcher.Boards.Raumfeld.{match_board, dtb_revision}
use pxa_impedance_matcher.Boards.Raumfeld.Select.{CanBlink}
use pxa_impedance_matcher.Boards.Raumfeld.Table.{RaumfeldBoard}
use pxa_impedance_matcher.Boards.Raumfeld.Table.Selected.{Selected, IsMachine, entries, sentinel}
use pxa_impedance_matcher.Boards.Raumfeld.Tags.{HasLine, tag_text}
use pxa_impedance_matcher.Boards.Raumfeld.Passed.{
  Chosen, compatible_prop, HasStrings, dtb_variables, dtb_text, dtb_revision-swapped,
}
use pxa_impedance_matcher.Boards.Raumfeld.Ends.{Served, Ends}
use pxa_impedance_matcher.Boards.Raumfeld.Match.{
  variables, match_board-from_atags, match_board-from_dtb,
}
use pxa_impedance_matcher.Tests.Addresses.{lit-IsBytes}
use pxa_impedance_matcher.Tests.Setup.{
  headers_only, platform, trees, tree_ram, tree_ram-IsBytes, controller_name, timer-Elapses,
  line-IsApart,
}

-- The revision 2, the command line "q", and the end.
abbrev pub tag_bytes : List ℕ
tag_bytes =
    3 ∷ 0 ∷ 0 ∷ 0 ∷ 7 ∷ 0 ∷ 0x41 ∷ 0x54 ∷ 2 ∷ 0 ∷ 0 ∷ 0 ∷ 3 ∷ 0 ∷ 0 ∷ 0 ∷ 9 ∷ 0 ∷ 0x41 ∷ 0x54 ∷ b'q'
    ∷ 0 ∷ 0 ∷ 0 ∷ []

abbrev pub tags_at : ℕ
tags_at = 0x2000

-- A tree at 0x1000, and the tags.
abbrev pub ram : View
ram a = if ltb a tags_at then tree_ram controller_name a else lit tag_bytes (a - tags_at)

ram-IsBytes : IsBytes ram
ram-IsBytes i = elim (Bool-cases (ltb i tags_at)) [
  | inl below ↦ rw below (tree_ram-IsBytes controller_name (omega arith) i)
  | inr above ↦ rw above (lit-IsBytes tag_bytes (omega arith) (i - tags_at))
]

abbrev pub start : Machine
start = record { ram = ram; history = [] }

-- A library that finds the name in the tree, and nothing else.
abbrev pub names_only : Fdt
names_only = record headers_only {
  getprop = λ v d off name. if length name == 10 then value 0x1008 36 else missing (negsuc 0);
}

unfoldable pub loader : Platform
unfolding platform
loader = record platform { fdt = names_only }

searches :
    (compat : List ℕ)
    → All (Fits compat) trees
    → IsChars compat
    → length compat < 100
    → HasTrees loader ram compat trees
unfolding loader platform next_dtb header_magic header_totalsize fdt32_to_cpu load32
searches compat fit chars fuel = record {
  bytes = ram-IsBytes;
  chain = link refl (end (λ e. omega arith));
  fit = fit;
  not_null = omega arith;
  chars = chars;
  fuel_text = fuel;
  fuel_trees = omega arith;
}

pub entries-Served : All (λ e. Served loader ram trees e.compatible) entries
unfolding entries
entries-Served = (
  searches (codes "raumfeld,raumfeld-controller-pxa303") (omega arith) (omega arith) (omega arith),
  (
    searches (codes "raumfeld,raumfeld-connector-pxa303") (omega arith) (omega arith) (omega arith),
    (
      searches (codes "raumfeld,raumfeld-speaker-s-pxa303") (omega arith) (omega arith)
          (omega arith),
      (
        searches (codes "raumfeld,raumfeld-speaker-m-pxa303") (omega arith) (omega arith)
            (omega arith),
        (
          searches (codes "raumfeld,raumfeld-speaker-l-pxa303") (omega arith) (omega arith)
              (omega arith),
          (
            searches (codes "raumfeld,raumfeld-speaker-one-pxa303") (omega arith) (omega arith)
                (omega arith),
            tt,
          ),
        ),
      ),
    ),
  ),
)

pub loader-CanBlink : CanBlink loader
unfolding loader platform
loader-CanBlink = record { apart = line-IsApart; elapses = timer-Elapses; fuel = omega arith }

abbrev pub tag_list : List ℕ
tag_list = 0x2000 ∷ 0x200c ∷ []

abbrev pub line_of : ℕ → List ℕ
line_of t = b'q' ∷ []

pub tag_list-Tags : Tags ram tags_at tag_list
unfolding tag_next load32
tag_list-Tags =
    Tags.next (λ e. omega (arith, e)) (Tags.next (λ e. omega (arith, e)) (Tags.end refl))

pub lines : All (HasLine loader ram line_of) tag_list
unfolding loader platform load32
lines = (λ e. absurd (omega (arith, e)), (λ e. ((omega arith), omega arith, omega arith), tt))

match_board-from_atags_example :
    (b : RaumfeldBoard) × Selected
      (IsMachine 2413 (variables loader line_of ram 0 tag_list).system_rev)
      entries
      sentinel
      b
    × Ends loader loader-CanBlink 3 2413 ram trees
        (some b)
        (variables loader line_of ram 0 tag_list)
        (texts (tag_text loader ram line_of) tag_list)
        start
        (match_board loader 3 2413 tags_at 0 start)
unfolding loader platform
match_board-from_atags_example =
    match_board-from_atags loader loader-CanBlink 3 2413 trees line_of tags_at tag_list 0 start
      (λ e. omega (arith, e)) (omega arith) tag_list-Tags lines (omega arith) entries-Served

pub strings : HasStrings loader ram 0x1000 [] controller_name
unfolding loader platform
strings = record {
  args_line = λ val len e. cc;
  name_line =
      λ val len e. let at : val ≡ 0x1008 = cc in rw at (omega arith, omega arith, omega arith);
  name_chars = omega arith;
}

match_board-from_dtb_example :
    (b : Option RaumfeldBoard) × Chosen (compatible_prop loader ram 0x1000) controller_name b
    × Ends loader loader-CanBlink 3 0xffffffff ram trees b
        (dtb_variables loader ram 0x1000 (record { system_rev = 7; cmdline = 0 }))
        (dtb_text loader ram 0x1000 [] controller_name)
        start
        (match_board loader 3 0xffffffff 0x1000 7 start)
unfolding loader platform
match_board-from_dtb_example =
    match_board-from_dtb loader loader-CanBlink 3 trees 0x1000 7 [] controller_name start
      (omega arith) strings entries-Served

-- A library that finds the revision 64, big-endian, which is the size of the tree at 0x1000.
unfoldable revised : Platform
unfolding platform
revised = record platform { fdt = record headers_only { getprop = λ v d off name. value 0x1004 4 } }

dtb_revision-swapped_example :
    Gives revised.serial.wire [] (swab32 64) start (dtb_revision revised 0x1000 0 start)
unfolding revised platform
dtb_revision-swapped_example =
    dtb_revision-swapped revised 0x1000 0 0x1004 4 64 start (omega arith) refl refl

abbrev encoded : List Tag
encoded =
    record { kind = atag_revision; body = 2 ∷ [] }
    ∷ record { kind = atag_cmdline; body = b'q' ∷ [] }
    ∷ []

for_each_tag-encode_example : for_each_tag 3 collect tags_at [] start ≡ ok encoded start
unfolding load32
for_each_tag-encode_example =
    for_each_tag-encode 3 start tags_at encoded
      (refl, (refl, (refl, (refl, (refl, (refl, (refl, (refl, tt)))))))) (omega arith) (omega arith)
