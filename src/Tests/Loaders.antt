-- ===== src/Tests/Loaders.antt =====
-- The whole loaders for the bcm63xx and the exynos.
use pxa_impedance_matcher.Base.{◌≡◌, List, ◌∷◌, ◌++◌, refl, none, true, [], arith, codes}
use pxa_impedance_matcher.Dtbs.{Dtb}
use pxa_impedance_matcher.Dtbs.FindDtb.{Names}
use pxa_impedance_matcher.Boards.Shared.{Globals}
use pxa_impedance_matcher.Boards.Shared.Matched.{board_of}
use pxa_impedance_matcher.Boards.Bcm63xx
use pxa_impedance_matcher.Boards.Exynos
use pxa_impedance_matcher.Matcher.{Config, main}
use pxa_impedance_matcher.Matcher.Start.{CanBoot}
use pxa_impedance_matcher.Matcher.Loader.{Loaded, matcher_of}
use pxa_impedance_matcher.Matcher.Bcm63xx.{found_text, bcm63xx-Loaded}
use pxa_impedance_matcher.Matcher.Exynos.{exynos-Loaded}
use pxa_impedance_matcher.Tests.Setup.{
  platform, trees, tree_ram, bcm_name, exynos_name, machine_with, bcm-HasTrees, exynos-HasTrees,
}

abbrev build : Config
build = record { append_kernel = true; relocate_dtb = none; version = codes "v1" }

abbrev no_globals : Globals
no_globals = record { system_rev = 0; cmdline = 0 }

bcm-CanBoot :
    (before after : List Dtb) (d : Dtb)
    → trees ≡ before ++ d ∷ after
    → Names (tree_ram bcm_name) bcm_name d
    → CanBoot platform build (board_of platform bcm_name none d)
unfolding platform
bcm-CanBoot before after d split there = record {
  fuel = omega arith;
  version_chars = omega arith;
  version_fuel = omega arith;
  name_chars = omega arith;
  name_fuel = omega arith;
  has_kernel = λ e. refl;
  apart = λ dest e. cc;
}

exynos-CanBoot :
    (before after : List Dtb) (d : Dtb)
    → trees ≡ before ++ d ∷ after
    → Names (tree_ram exynos_name) exynos_name d
    → CanBoot platform build (board_of platform exynos_name none d)
unfolding platform
exynos-CanBoot before after d split there = record {
  fuel = omega arith;
  version_chars = omega arith;
  version_fuel = omega arith;
  name_chars = omega arith;
  name_fuel = omega arith;
  has_kernel = λ e. refl;
  apart = λ dest e. cc;
}

bcm63xx-Loaded_example :
    Loaded platform build
      (tree_ram bcm_name)
      bcm_name
      trees
      (found_text platform 0x63138)
      []
      0x100
      (machine_with bcm_name)
      (main platform build
        (matcher_of (Bcm63xx.match_board platform) no_globals)
        3
        0x100
        (machine_with bcm_name))
unfolding platform
bcm63xx-Loaded_example =
    bcm63xx-Loaded platform build no_globals 0x63138000 bcm_name trees 3 0x100
      (machine_with bcm_name) (λ h. refl) refl bcm-HasTrees (omega arith) (omega arith)
      (omega arith) bcm-CanBoot

exynos-Loaded_example :
    Loaded platform build
      (tree_ram exynos_name)
      exynos_name
      trees
      []
      []
      0x100
      (machine_with exynos_name)
      (main platform build
        (matcher_of (Exynos.match_board platform) no_globals)
        3
        0x100
        (machine_with exynos_name))
unfolding platform
exynos-Loaded_example =
    exynos-Loaded platform build no_globals 0xe4412000 exynos_name trees 3 0x100
      (machine_with exynos_name) (λ h. refl) refl exynos-HasTrees (omega arith) (omega arith)
      (omega arith) exynos-CanBoot
