-- ===== src/Boards/Dreamplug/Match.antt =====
-- match_board of board-dreamplug.c.
use pxa_impedance_matcher.Base.{◌≡◌, refl, none, List, View}
use pxa_impedance_matcher.Machine.{Machine, Run}
use pxa_impedance_matcher.Dtbs.{Dtb}
use pxa_impedance_matcher.Dtbs.FindDtb.{FirstNaming}
use pxa_impedance_matcher.Boards.Shared.{Platform}
use pxa_impedance_matcher.Boards.Shared.Matched.{HasTrees, board_of, search_dtb-FirstNaming}
use pxa_impedance_matcher.Boards.Dreamplug.{compat, match_board}

-- The result depends on the RAM alone.
pub match_board-any :
    (p : Platform) (ram : View) (bs : List Dtb)
    → HasTrees p ram compat bs
    → (d : Dtb) × ((m : Machine)
        → m.ram ≡ ram
        → match_board p m ≡ Run.ok (board_of p compat none d) m)
      × FirstNaming ram compat bs d
unfolding match_board
match_board-any p ram bs trees =
    let (d, e, first) = search_dtb-FirstNaming p compat none bs ram trees in
    (d, (λ m same. rw (e m same)), first)

-- With a chain of trees behind the loader, the dreamplug's match_board returns the dreamplug with
-- the first tree that names it, or with NULL if none does, and has no effect on the machine.
pub match_board-dreamplug :
    (p : Platform) (m : Machine) (bs : List Dtb)
    → HasTrees p m.ram compat bs
    → (d : Dtb) × (match_board p m ≡ Run.ok (board_of p compat none d) m)
      × FirstNaming m.ram compat bs d
match_board-dreamplug p m bs trees =
    let (d, e, first) = match_board-any p m.ram bs trees in (d, e m refl, first)
