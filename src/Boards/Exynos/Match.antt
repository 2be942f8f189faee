-- ===== src/Boards/Exynos/Match.antt =====
-- match_board of board-exynos.c against the products that it knows.
use pxa_impedance_matcher.Base.{
  ℕ, ◌<◌, ◌≡◌, refl, ◌∙◌, inl, inr, Option, none, some, List, [], ◌∷◌, ◌++◌, arith, ◌==◌,
  if◌then◌else◌, Bool-cases, ==→eq, codes, u32, shr,
}
use pxa_impedance_matcher.Machine.{got, Machine, readl, panic}
use pxa_impedance_matcher.Machine.Prints.{Stops, Stops-panic, Stops-from, Prints-Stops}
use pxa_impedance_matcher.Print.Output.{echo_all}
use pxa_impedance_matcher.Dtbs.{Dtb}
use pxa_impedance_matcher.Boards.Shared.{Platform, say}
use pxa_impedance_matcher.Boards.Shared.Matched.{
  HasTrees, Matched, say-Prints, finish_match-Matched, Matched-from,
}
use pxa_impedance_matcher.Boards.Exynos.{
  ExynosBoard, exboards, find_board, exynos_pro_id, select, match_board,
}

-- The products that the loader knows.
abbrev pub compatible_of : ℕ → Option (List ℕ)
compatible_of proid =
    if proid == 0xe4412
    then some (codes "samsung,trats2")
    else (if proid == 0x43210 then some (codes "samsung,trats") else none)

find_board-compatible :
    (proid : ℕ)
    → (b : ExynosBoard) × (find_board exboards proid ≡ some b)
      × (b.compatible ≡ compatible_of proid)
unfolding find_board exboards
find_board-compatible proid = elim (Bool-cases (0xe4412 == proid)) [
  | inl one ↦ (
    record { proid = 0xe4412; system_rev = 0; compatible = some (codes "samsung,trats2") },
    rw one,
    rw (← ==→eq 0xe4412 proid one),
  )
  | inr not_one ↦ elim (Bool-cases (0x43210 == proid)) [
    | inl two ↦ (
      record { proid = 0x43210; system_rev = 0; compatible = some (codes "samsung,trats") },
      rw (not_one, two),
      rw (← ==→eq 0x43210 proid two),
    )
    | inr not_two ↦ (
      record { proid = 0; system_rev = 0; compatible = none },
      rw (not_one, not_two),
      ground arith,
    )
  ]
]

module _ (p : Platform) (m : Machine) where
  -- The identifier that the register gives.
  abbrev pub product : ℕ
  product = shr (u32 (p.dev m.history exynos_pro_id)) 12

  read_product : Machine
  read_product = record m {
    history = got exynos_pro_id (u32 (p.dev m.history exynos_pro_id)) ∷ m.history;
  }

  read_product-line : p.serial.wire read_product.history ≡ p.serial.wire m.history
  unfolding read_product
  read_product-line =
      p.serial.wire-got exynos_pro_id (u32 (p.dev m.history exynos_pro_id)) m.history

  -- On a product that the exynos loader knows, with a chain of trees behind it and fuel for the
  -- messages, match_board returns the first tree that names it, or says that there is none and
  -- panics.
  pub match_board-exynos-Matched :
      (compat : List ℕ) (bs : List Dtb)
      → compatible_of product ≡ some compat
      → HasTrees p m.ram compat bs
      → 22 < p.fuel
      → Matched p m.ram compat none bs [] [] m (match_board p m)
  unfolding match_board readl read_product select
  match_board-exynos-Matched compat bs known trees fuel =
      let (b, e, c) = find_board-compatible product in
      Matched-from p compat none bs {m' = read_product} read_product-line refl (
        rw (e, select, c ∙ known)
          (finish_match-Matched p compat none bs panic [] Stops-panic fuel m.ram read_product refl
            trees))

  -- On a product that the exynos loader does not know, match_board prints an error and panics.
  pub match_board-exynos-Stops :
      compatible_of product ≡ none
      → 22 < p.fuel
      → Stops p.serial.wire
          (echo_all p.serial (codes "ERROR MATCHING BOARD!\n") ++ [])
          m
          (match_board p m)
  unfolding match_board readl read_product select
  match_board-exynos-Stops unknown fuel =
      let (b, e, c) = find_board-compatible product in
      Stops-from {m' = read_product} read_product-line refl (
        rw (e, select, c ∙ unknown)
          (Prints-Stops (say p (codes "ERROR MATCHING BOARD!\n")) panic
            (say-Prints p (codes "ERROR MATCHING BOARD!\n") (omega arith) (omega arith)
              read_product)
            λ m' _. Stops-panic m'))
