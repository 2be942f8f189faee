-- ===== src/Boards/Raumfeld/Table.antt =====
-- The table of board-raumfeld.c and the two searches in it.
pub mod Selected
use pxa_impedance_matcher.Base.{
  ℕ, String, ◌&&◌, Option, none, some, List, [], ◌∷◌, ◌==◌, if◌then◌else◌, codes, Result, done,
  fault, ◌>>=◌, View, shr, lit,
}
use pxa_impedance_matcher.Base.Int.{is_zero}
use pxa_impedance_matcher.Str.{strlen, strncmp}
use pxa_impedance_matcher.Boards.Shared.{Fixup, fixup_common, fixup_controller}

pub record RaumfeldBoard : Type 0 where
  pub machid : ℕ
  pub system_rev_upper : ℕ
  pub compatible : Option (List ℕ)
  pub fixup_dtb : Option Fixup

abbrev pub entry : ℕ → ℕ → String → Fixup → RaumfeldBoard
entry machid upper compat fixup = record {
  machid = machid;
  system_rev_upper = upper;
  compatible = some (codes compat);
  fixup_dtb = some fixup;
}

unfoldable pub rboards : List RaumfeldBoard
rboards =
    entry 2413 0 "raumfeld,raumfeld-controller-pxa303" fixup_controller
    ∷ entry 2414 0 "raumfeld,raumfeld-connector-pxa303" fixup_common
    ∷ entry 2415 0 "raumfeld,raumfeld-speaker-s-pxa303" fixup_common
    ∷ entry 2415 1 "raumfeld,raumfeld-speaker-m-pxa303" fixup_common
    ∷ entry 2415 2 "raumfeld,raumfeld-speaker-l-pxa303" fixup_common
    ∷ entry 2415 4 "raumfeld,raumfeld-speaker-one-pxa303" fixup_common
    ∷ record { machid = 0; system_rev_upper = 0; compatible = none; fixup_dtb = none }
    ∷ []

-- The loop over the table with the machine's identifier and revision; `none` past the table's end.
unfoldable pub find_machid : List RaumfeldBoard → ℕ → ℕ → Option RaumfeldBoard
find_machid [] machid system_rev = none
find_machid (b ∷ bs) machid system_rev =
    let rest = find_machid bs machid system_rev in
    let hit = b.machid == machid && b.system_rev_upper == shr system_rev 8 in
    if b.machid == 0 then some b else (if hit then some b else rest)

-- The loop with the string at `val`.
unfoldable pub find_compatible : ℕ → List RaumfeldBoard → View → ℕ → Result RaumfeldBoard
find_compatible f [] ram val = fault
find_compatible f (b ∷ bs) ram val =
    let rest = find_compatible f bs ram val in
    elim b.compatible [
      | none ↦ done b
      | some compat ↦ strlen f (lit compat) 0 >>= λ len.
          if is_zero (strncmp (lit compat) 0 ram val len) then done b else rest
    ]
