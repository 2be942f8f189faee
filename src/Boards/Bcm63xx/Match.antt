-- ===== src/Boards/Bcm63xx/Match.antt =====
-- match_board of board-bcm63xx.c against the chips that it knows.
use pxa_impedance_matcher.Base.{
  ℕ, ◌<◌, ◌≡◌, refl, ◌∙◌, inl, inr, Option, none, some, List, [], ◌∷◌, ◌++◌, arith, ◌==◌,
  if◌then◌else◌, Bool-cases, ==→eq, codes, View, u32, shr,
}
use pxa_impedance_matcher.Machine.{got, Machine, readl, panic}
use pxa_impedance_matcher.Machine.Prints.{Stops, Stops-panic, Stops-seq, Stops-from, Prints-Stops}
use pxa_impedance_matcher.Print.{printhex}
use pxa_impedance_matcher.Print.Output.{echo_all, emits_all, hex_text, printhex-Prints}
use pxa_impedance_matcher.Dtbs.{Dtb}
use pxa_impedance_matcher.Boards.Shared.{Platform, say}
use pxa_impedance_matcher.Boards.Shared.Matched.{
  HasTrees, Matched, say-Prints, finish_match-Matched, Matched-after, Matched-from,
}
use pxa_impedance_matcher.Boards.Bcm63xx.{
  BcmBoard, boards, find_board, int_revid_reg, select, match_board,
}

-- The chips that the loader knows.
abbrev pub compatible_of : ℕ → Option (List ℕ)
compatible_of chip_id =
    if chip_id == 0x63138
    then some (codes "brcm,bcm63138")
    else (if chip_id == 0x63148 then some (codes "brcm,bcm63148") else none)

find_board-compatible :
    (chip_id : ℕ)
    → (b : BcmBoard) × (find_board boards chip_id ≡ some b) × (b.compatible ≡ compatible_of chip_id)
unfolding find_board boards
find_board-compatible chip_id = elim (Bool-cases (0x63138 == chip_id)) [
  | inl one ↦ (
    record { chip_id = 0x63138; compatible = some (codes "brcm,bcm63138") },
    rw one,
    rw (← ==→eq 0x63138 chip_id one),
  )
  | inr not_one ↦ elim (Bool-cases (0x63148 == chip_id)) [
    | inl two ↦ (
      record { chip_id = 0x63148; compatible = some (codes "brcm,bcm63148") },
      rw (not_one, two),
      rw (← ==→eq 0x63148 chip_id two),
    )
    | inr not_two ↦ (record { chip_id = 0; compatible = none }, rw (not_one, not_two), ground arith)
  ]
]

module _ (p : Platform) (b : BcmBoard) (m : Machine) where
  select-Matched :
      (compat : List ℕ) (bs : List Dtb) (ram : View)
      → b.compatible ≡ some compat
      → m.ram ≡ ram
      → HasTrees p ram compat bs
      → 22 < p.fuel
      → Matched p ram compat none bs [] [] m (select p (some b) m)
  unfolding select
  select-Matched compat bs ram known same trees fuel =
      rw known (finish_match-Matched p compat none bs panic [] Stops-panic fuel ram m same trees)

  select-Stops :
      b.compatible ≡ none
      → 22 < p.fuel
      → Stops p.serial.wire
          (echo_all p.serial (codes "ERROR MATCHING BOARD!\n") ++ [])
          m
          (select p (some b) m)
  unfolding select
  select-Stops unknown fuel = rw unknown (
      Prints-Stops (say p (codes "ERROR MATCHING BOARD!\n")) panic
        (say-Prints p (codes "ERROR MATCHING BOARD!\n") (omega arith) (omega arith) m)
        λ m' _. Stops-panic m')

module _ (p : Platform) (m : Machine) where
  -- The identifier that the register gives.
  abbrev pub chip : ℕ
  chip = shr (u32 (p.dev m.history int_revid_reg)) 12

  -- What is printed about it.
  abbrev pub chip_text : List ℕ → List ℕ
  chip_text rest =
      echo_all p.serial (codes "Found a Broadcom BCM")
      ++ (emits_all p.serial (hex_text chip) ++ (echo_all p.serial (codes " chip\n") ++ rest))

  read_chip : Machine
  read_chip = record m {
    history = got int_revid_reg (u32 (p.dev m.history int_revid_reg)) ∷ m.history;
  }

  read_chip-line : p.serial.wire read_chip.history ≡ p.serial.wire m.history
  unfolding read_chip
  read_chip-line = p.serial.wire-got int_revid_reg (u32 (p.dev m.history int_revid_reg)) m.history

  -- On a chip that the bcm63xx loader knows, with a chain of trees behind it and fuel for the
  -- messages, match_board prints the chip's identifier and returns the first tree that names the
  -- chip, or says that there is none and panics.
  pub match_board-Matched :
      (compat : List ℕ) (bs : List Dtb)
      → compatible_of chip ≡ some compat
      → HasTrees p m.ram compat bs
      → 22 < p.fuel
      → Matched p m.ram compat none bs (chip_text []) [] m (match_board p m)
  unfolding match_board readl read_chip
  match_board-Matched compat bs known trees fuel =
      let (b, e, c) = find_board-compatible chip in
      let found =
        say-Prints p (codes "Found a Broadcom BCM") (omega arith) (omega arith) read_chip in
      let number = printhex-Prints p.serial chip found.after in
      let rest = say-Prints p (codes " chip\n") (omega arith) (omega arith) number.after in
      Matched-from p compat none bs {m' = read_chip} read_chip-line refl (
        rw e (
          Matched-after p compat none bs (say p (codes "Found a Broadcom BCM")) _ found (
            Matched-after p compat none bs (printhex p.serial chip) _ number (
              Matched-after p compat none bs (say p (codes " chip\n")) _ rest (
                select-Matched p b rest.after compat bs m.ram (c ∙ known)
                  (rest.same_ram ∙ number.same_ram ∙ found.same_ram) trees fuel)))))

  -- On a chip that the bcm63xx loader does not know, match_board prints the chip's identifier and
  -- an error, and panics.
  pub match_board-Stops :
      compatible_of chip ≡ none
      → 22 < p.fuel
      → Stops p.serial.wire
          (chip_text (echo_all p.serial (codes "ERROR MATCHING BOARD!\n") ++ []))
          m
          (match_board p m)
  unfolding match_board readl read_chip
  match_board-Stops unknown fuel =
      let (b, e, c) = find_board-compatible chip in
      let found =
        say-Prints p (codes "Found a Broadcom BCM") (omega arith) (omega arith) read_chip in
      let number = printhex-Prints p.serial chip found.after in
      let rest = say-Prints p (codes " chip\n") (omega arith) (omega arith) number.after in
      Stops-from {m' = read_chip} read_chip-line refl (
        rw e (
          Stops-seq (say p (codes "Found a Broadcom BCM")) _ found (
            Stops-seq (printhex p.serial chip) _ number (
              Stops-seq (say p (codes " chip\n")) _ rest
                (select-Stops p b rest.after (c ∙ unknown) fuel)))))
