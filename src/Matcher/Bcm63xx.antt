-- ===== src/Matcher/Bcm63xx.antt =====
-- The whole loader for the bcm63xx: main.c with board-bcm63xx.c.
use pxa_impedance_matcher.Base.{
  arith, ℕ, ◌<◌, ◌≡◌, ap, ◌∙◌, subst, none, some, List, [], ◌∷◌, ◌++◌, length, codes, IsChars, u32,
  shr,
}
use pxa_impedance_matcher.Machine.{Event, Machine}
use pxa_impedance_matcher.Print.Output.{hex_text, echo_all, emits_all}
use pxa_impedance_matcher.Dtbs.{Dtb}
use pxa_impedance_matcher.Dtbs.FindDtb.{Names}
use pxa_impedance_matcher.Boards.Shared.{Globals, Platform}
use pxa_impedance_matcher.Boards.Shared.Matched.{HasTrees, Matched, board_of}
use pxa_impedance_matcher.Boards.Bcm63xx.{int_revid_reg, match_board}
use pxa_impedance_matcher.Boards.Bcm63xx.Match.{compatible_of, match_board-Matched}
use pxa_impedance_matcher.Matcher.{Config, main}
use pxa_impedance_matcher.Matcher.Start.{CanBoot}
use pxa_impedance_matcher.Matcher.Loader.{Loaded, matcher_of, main-Loaded}

module _ (p : Platform) where
  -- What match_board prints of a chip.
  abbrev pub found_text : ℕ → List ℕ
  found_text id =
      echo_all p.serial (codes "Found a Broadcom BCM")
      ++ (emits_all p.serial (hex_text id) ++ (echo_all p.serial (codes " chip\n") ++ []))

module _ (p : Platform) (cfg : Config) (g : Globals) where
  -- Where the chip's register always reads the same identifier, one that the loader knows, with a
  -- chain of trees behind the loader, fuel for the messages, and a build that main can boot with
  -- each of them that names the chip (CanBoot), the loader for the bcm63xx starts the kernel with the
  -- first such tree, all its messages printed in order, or says that there is none and never
  -- returns.
  pub bcm63xx-Loaded :
      (revid : ℕ) (compat : List ℕ) (bs : List Dtb) (machid tags : ℕ) (m : Machine)
      → ((h : List Event) → p.dev h int_revid_reg ≡ revid)
      → compatible_of (shr (u32 revid) 12) ≡ some compat
      → HasTrees p m.ram compat bs
      → 30 < p.fuel
      → IsChars cfg.version
      → length cfg.version < p.fuel
      → ((before after : List Dtb) (d : Dtb)
          → bs ≡ before ++ d ∷ after
          → Names m.ram compat d
          → CanBoot p cfg (board_of p compat none d))
      → Loaded p cfg m.ram compat bs
          (found_text p (shr (u32 revid) 12))
          []
          tags
          m
          (main p cfg (matcher_of (match_board p) g) machid tags m)
  bcm63xx-Loaded revid compat bs machid tags m reads known trees fuel chars short can =
      main-Loaded p cfg (match_board p) g machid tags m compat bs
        (found_text p (shr (u32 revid) 12)) [] fuel chars short can matches
    where
      matches :
          (m' : Machine)
          → m'.ram ≡ m.ram
          → Matched p m.ram compat none bs
              (found_text p (shr (u32 revid) 12))
              []
              m'
              (match_board p m')
      matches m' same =
          subst
            (λ r.
              Matched p r compat none bs (found_text p (shr (u32 revid) 12)) [] m'
                (match_board p m'))
            same
            (subst
              (λ n.
                Matched p m'.ram compat none bs (found_text p (shr (u32 n) 12)) [] m'
                  (match_board p m'))
              (reads m'.history)
              (match_board-Matched p m' compat bs
                (ap (λ n. compatible_of (shr (u32 n) 12)) (reads m'.history) ∙ known)
                (rw same trees) (omega arith)))
