-- ===== src/Matcher/Dreamplug.antt =====
-- The whole loader for the dreamplug: main.c with board-dreamplug.c.
use pxa_impedance_matcher.Base.{ℕ, ◌≡◌, refl, none, List, []}
use pxa_impedance_matcher.Machine.{Machine, ok, Cmd, pure, ◌>>=◌}
use pxa_impedance_matcher.Machine.Prints.{Gives, Gives-pure}
use pxa_impedance_matcher.Dtbs.{Dtb}
use pxa_impedance_matcher.Dtbs.FindDtb.{FirstNaming}
use pxa_impedance_matcher.Boards.Shared.{Board, Globals, Platform}
use pxa_impedance_matcher.Boards.Shared.Matched.{HasTrees, board_of}
use pxa_impedance_matcher.Boards.Dreamplug.{compat, match_board}
use pxa_impedance_matcher.Boards.Dreamplug.Match.{match_board-any}
use pxa_impedance_matcher.Matcher.{Config, main}
use pxa_impedance_matcher.Matcher.Start.{CanBoot, Boots, main_text}
use pxa_impedance_matcher.Matcher.Boot.{main-Boots}

module _ (p : Platform) (cfg : Config) (g : Globals) where
  -- match_board with its arguments, which it does not look at.
  abbrev pub matcher : ℕ → ℕ → Cmd (Board × Globals)
  matcher machid tags = match_board p >>= λ board. pure (board, g)

  matcher-Gives :
      (board : Board) (m : Machine) (machid tags : ℕ)
      → match_board p m ≡ ok board m
      → Gives p.serial.wire [] (board, g) m (matcher machid tags m)
  matcher-Gives board m machid tags e = rw e (Gives-pure (board, g) m)

  -- With a chain of trees behind the loader, and texts and a build that main can boot with whichever
  -- of them is found (CanBoot), the loader for the dreamplug prints its messages and starts the
  -- kernel with the first tree that names the dreamplug, moved if the build says so, or with the
  -- caller's tags if none names it at an address other than NULL.
  pub dreamplug-Boots :
      (m : Machine) (bs : List Dtb) (machid tags : ℕ)
      → HasTrees p m.ram compat bs
      → ((d : Dtb) → FirstNaming m.ram compat bs d → CanBoot p cfg (board_of p compat none d))
      → (d : Dtb) × FirstNaming m.ram compat bs d
        × Boots p cfg tags
            (board_of p compat none d)
            (main_text p cfg (board_of p compat none d) [])
            m
            (main p cfg matcher machid tags m)
  dreamplug-Boots m bs machid tags trees can =
      let (d, e, first) = match_board-any p m.ram bs trees in
      let board = board_of p compat none d in
      (
        d,
        first,
        main-Boots p cfg board (can d first) matcher machid tags g [] m
            (λ m' same. matcher-Gives board m' machid tags (e m' same)) refl,
      )
