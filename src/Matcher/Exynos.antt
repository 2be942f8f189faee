-- ===== src/Matcher/Exynos.antt =====
-- The whole loader for the exynos: main.c with board-exynos.c.
use pxa_impedance_matcher.Base.{
  arith, ℕ, ◌<◌, ◌≡◌, ap, ◌∙◌, subst, none, some, List, [], ◌∷◌, ◌++◌, length, IsChars, u32, shr,
}
use pxa_impedance_matcher.Machine.{Event, Machine}
use pxa_impedance_matcher.Dtbs.{Dtb}
use pxa_impedance_matcher.Dtbs.FindDtb.{Names}
use pxa_impedance_matcher.Boards.Shared.{Globals, Platform}
use pxa_impedance_matcher.Boards.Shared.Matched.{HasTrees, Matched, board_of}
use pxa_impedance_matcher.Boards.Exynos.{exynos_pro_id, match_board}
use pxa_impedance_matcher.Boards.Exynos.Match.{compatible_of, match_board-exynos-Matched}
use pxa_impedance_matcher.Matcher.{Config, main}
use pxa_impedance_matcher.Matcher.Start.{CanBoot}
use pxa_impedance_matcher.Matcher.Loader.{Loaded, matcher_of, main-Loaded}

module _ (p : Platform) (cfg : Config) (g : Globals) where
  -- Where the product's register always reads the same identifier, one that the loader knows, with a
  -- chain of trees behind the loader, fuel for the messages, and a build that main can boot with
  -- each of them that names the product (CanBoot), the loader for the exynos starts the kernel with the
  -- first such tree, all its messages printed in order, or says that there is none and never
  -- returns.
  pub exynos-Loaded :
      (proid : ℕ) (compat : List ℕ) (bs : List Dtb) (machid tags : ℕ) (m : Machine)
      → ((h : List Event) → p.dev h exynos_pro_id ≡ proid)
      → compatible_of (shr (u32 proid) 12) ≡ some compat
      → HasTrees p m.ram compat bs
      → 30 < p.fuel
      → IsChars cfg.version
      → length cfg.version < p.fuel
      → ((before after : List Dtb) (d : Dtb)
          → bs ≡ before ++ d ∷ after
          → Names m.ram compat d
          → CanBoot p cfg (board_of p compat none d))
      → Loaded p cfg m.ram compat bs [] [] tags m
          (main p cfg (matcher_of (match_board p) g) machid tags m)
  exynos-Loaded proid compat bs machid tags m reads known trees fuel chars short can =
      main-Loaded p cfg (match_board p) g machid tags m compat bs [] [] fuel chars short can matches
    where
      matches :
          (m' : Machine)
          → m'.ram ≡ m.ram
          → Matched p m.ram compat none bs [] [] m' (match_board p m')
      matches m' same =
          subst (λ r. Matched p r compat none bs [] [] m' (match_board p m')) same
            (match_board-exynos-Matched p m' compat bs
              (ap (λ n. compatible_of (shr (u32 n) 12)) (reads m'.history) ∙ known) (rw same trees)
              (omega arith))
