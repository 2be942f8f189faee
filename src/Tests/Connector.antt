-- ===== src/Tests/Connector.antt =====
-- A Raumfeld connector with tags and a small library for device trees.
use pxa_impedance_matcher.Base.{
  ℕ, zero, suc, ◌+◌, some, ◌-◌, ◌<◌, ◌∙◌, refl, sym, inl, inr, List, [], arith, ltb, if◌then◌else◌,
  Bool-cases, codes, length, All, View, lit, IsBytes, IsChars, ◌≡◌, ◌∷◌,
}
use pxa_impedance_matcher.Base.Int.{pos}
use pxa_impedance_matcher.Endian.{load32, fdt32_to_cpu, store32}
use pxa_impedance_matcher.Ram.{store}
use pxa_impedance_matcher.Fdt.{big_endian, setprop_u32}
use pxa_impedance_matcher.Fdt.Contract.{bytes_of, Sets, set}
use pxa_impedance_matcher.Fdt.Header.{header_magic, header_totalsize}
use pxa_impedance_matcher.Machine.{Machine}
use pxa_impedance_matcher.Dtbs.{next_dtb}
use pxa_impedance_matcher.Dtbs.FindDtb.{Fits, link, end}
use pxa_impedance_matcher.Atags.{tag_next}
use pxa_impedance_matcher.Atags.Walk.{Tags}
use pxa_impedance_matcher.Boards.Shared.{Platform, Board, Fixup}
use pxa_impedance_matcher.Boards.Shared.Matched.{HasTrees}
use pxa_impedance_matcher.Boards.Raumfeld.Select.{CanBlink}
use pxa_impedance_matcher.Boards.Raumfeld.Table.Selected.{entries}
use pxa_impedance_matcher.Boards.Raumfeld.Tags.{HasLine}
use pxa_impedance_matcher.Boards.Raumfeld.Ends.{Served}
use pxa_impedance_matcher.Matcher.Start.{CanBoot}
use pxa_impedance_matcher.Matcher.Raumfeld.Sees.{CanHand}
use pxa_impedance_matcher.Tests.RaumfeldLoader.{build, globals}
use pxa_impedance_matcher.Tests.Addresses.{lit-IsBytes}
use pxa_impedance_matcher.Tests.Setup.{
  platform, trees, tree_ram, tree_ram-IsBytes, timer-Elapses, line-IsApart,
}
use pxa_impedance_matcher.Tests.SmallFdt.{small, small-said, fill, args_others, revision_others}
use pxa_impedance_matcher.Tests.RaumfeldMatch.{tag_bytes, tags_at, tag_list, line_of}

abbrev connector_name : List ℕ
connector_name = codes "raumfeld,raumfeld-connector-pxa303"

abbrev pub ram : View
ram a = if ltb a tags_at then tree_ram connector_name a else lit tag_bytes (a - tags_at)

ram-IsBytes : IsBytes ram
ram-IsBytes i = elim (Bool-cases (ltb i tags_at)) [
  | inl below ↦ rw below (tree_ram-IsBytes connector_name (omega arith) i)
  | inr above ↦ rw above (lit-IsBytes tag_bytes (omega arith) (i - tags_at))
]

abbrev pub start : Machine
start = record { ram = ram; history = [] }

unfoldable pub loader : Platform
unfolding platform
loader = record platform { fdt = small }

searches :
    (compat : List ℕ)
    → All (Fits compat) trees
    → IsChars compat
    → length compat < 100
    → HasTrees loader ram compat trees
unfolding loader platform next_dtb header_magic header_totalsize fdt32_to_cpu load32
searches compat fit chars fuel = record {
  bytes = ram-IsBytes;
  chain = link refl (end (λ e. omega arith));
  fit = fit;
  not_null = omega arith;
  chars = chars;
  fuel_text = fuel;
  fuel_trees = omega arith;
}

pub entries-Served : All (λ e. Served loader ram trees e.compatible) entries
unfolding entries
entries-Served = (
  searches (codes "raumfeld,raumfeld-controller-pxa303") (omega arith) (omega arith) (omega arith),
  (
    searches (codes "raumfeld,raumfeld-connector-pxa303") (omega arith) (omega arith) (omega arith),
    (
      searches (codes "raumfeld,raumfeld-speaker-s-pxa303") (omega arith) (omega arith)
          (omega arith),
      (
        searches (codes "raumfeld,raumfeld-speaker-m-pxa303") (omega arith) (omega arith)
            (omega arith),
        (
          searches (codes "raumfeld,raumfeld-speaker-l-pxa303") (omega arith) (omega arith)
              (omega arith),
          (
            searches (codes "raumfeld,raumfeld-speaker-one-pxa303") (omega arith) (omega arith)
                (omega arith),
            tt,
          ),
        ),
      ),
    ),
  ),
)

pub loader-CanBlink : CanBlink loader
unfolding loader platform
loader-CanBlink = record { apart = line-IsApart; elapses = timer-Elapses; fuel = omega arith }

pub tag_list-Tags : Tags ram tags_at tag_list
unfolding tag_next load32
tag_list-Tags =
    Tags.next (λ e. omega (arith, e)) (Tags.next (λ e. omega (arith, e)) (Tags.end refl))

pub lines : All (HasLine loader ram line_of) tag_list
unfolding loader platform load32
lines = (λ e. absurd (omega (arith, e)), (λ e. ((omega arith), omega arith, omega arith), tt))

-- The RAM with the revision, and with the command line too.
abbrev revised : View
revised = fill ram 0x1020 (bytes_of (big_endian 2) 0 4)

abbrev complete : View
complete = fill (store revised 0x103f 3) 0x1040 (bytes_of revised 0x2014 3)

root_set :
    Sets small ram 0x1000 (codes "/") (codes "hw-revision") (bytes_of (big_endian 2) 0 4) revised
unfolding store store32
root_set = record {
  now = refl;
  others = λ path name differs.
      small-said revised 0x1000 path name
      ∙ revision_others ram revised 0x1000 refl path name differs
      ∙ sym (small-said ram 0x1000 path name);
}

line_set :
    Sets small revised 0x1000
      (codes "/chosen")
      (codes "bootargs")
      (bytes_of revised 0x2014 3)
      complete
unfolding store
line_set = record {
  now = refl;
  others = λ path name differs.
      small-said complete 0x1000 path name
      ∙ args_others revised complete 0x1000 refl path name differs
      ∙ sym (small-said revised 0x1000 path name);
}

kept_line :
    (i : ℕ)
    → i < 2
    → (setprop_u32 small ram 0x1000 (pos 0) (codes "hw-revision") 2).0 (0x2014 + i)
      ≡ ram (0x2014 + i)
unfolding setprop_u32 store store32
kept_line zero lt = refl
kept_line (suc zero) lt = refl
kept_line (suc (suc i)) lt = absurd (omega arith)

pub hand :
    (board : Board)
    → board.dtb ≡ 0x1000
    → CanBoot loader build board
    → board.fixup_dtb ≡ some Fixup.fixup_common
    → CanHand loader build globals (b'q' ∷ []) ram board
unfolding loader platform setprop_u32 store store32
hand board at can has = record {
  can = can;
  there = rw at (λ e. omega (arith, e));
  has = has;
  given = λ e. omega (arith, e);
  node = 8;
  root = refl;
  chosen = refl;
  kept = rw at kept_line;
  first = rw at (set root_set refl, refl);
  second = rw at (set line_set refl, refl);
}
