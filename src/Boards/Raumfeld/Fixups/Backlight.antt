-- ===== src/Boards/Raumfeld/Fixups/Backlight.antt =====
-- The backlight's node in the device tree, which the controller's fixup of board-raumfeld.c enables.
use pxa_impedance_matcher.Base.{
  ℕ, ◌<◌, ◌≡◌, ◌≢◌, refl, subst, ◌⊎◌, inl, inr, List, [], ◌∷◌, ◌++◌, arith, eq→==, ne→==, codes,
  View, IsChars, length,
}
use pxa_impedance_matcher.Base.Int.{ℤ, pos, negsuc}
use pxa_impedance_matcher.Fdt.Contract.{bytes_of, Sets, SetpropContract}
use pxa_impedance_matcher.Fdt.Cells.{setprop-Sets, bytes_of-Holds}
use pxa_impedance_matcher.Machine.{Machine, Run, ok}
use pxa_impedance_matcher.Machine.Prints.{Prints, Prints-seq}
use pxa_impedance_matcher.Print.Output.{echo_all}
use pxa_impedance_matcher.Boards.Shared.{say, Board, Globals, Platform}
use pxa_impedance_matcher.Boards.Shared.Matched.{say-Prints}
use pxa_impedance_matcher.Boards.Raumfeld.Fixups.{
  raumfeld_fixup_dtb_common, backlight_node, okay, raumfeld_fixup_dtb_controller,
}
use pxa_impedance_matcher.Boards.Raumfeld.Fixups.Written.{with_string, okay-Holds, controller-okay}

-- Revision 2 has its backlight regulator at one node, and every other revision at another.
abbrev pub IsBacklight : ℕ → List ℕ → Type 0
IsBacklight rev node =
    ((rev ≡ 2) × (node ≡ codes "/backlight-controller"))
    ⊎ ((rev ≢ 2) × (node ≡ codes "/backlight-controller-pwm"))

backlight_node_lem : (rev : ℕ) (node : List ℕ) → IsBacklight rev node → backlight_node rev ≡ node
backlight_node_lem rev node (inl (two, is)) = rw (eq→== rev 2 two, is)
backlight_node_lem rev node (inr (other, is)) = rw (ne→== rev 2 other, is)

-- From the machine `m`: the node's status is "okay" with its NUL and one byte more, and nothing else is
-- changed; or there is no such node, which is said.
pub data Backlit (p : Platform) (board : Board) (node : List ℕ) (m : Machine) (r : Run (Unit {0}))
    : Type 0 where
  enabled :
      (n : ℕ) (out : View)
      → p.fdt.path_offset m.ram board.dtb node ≡ pos n
      → r ≡ ok tt (record m { ram = out })
      → Sets p.fdt m.ram board.dtb node
          (codes "status")
          (codes "okay" ++ 0 ∷ p.behind_okay 0 ∷ [])
          out
      → Backlit p board node m r
  unlocated :
      (n : ℕ)
      → p.fdt.path_offset m.ram board.dtb node ≡ negsuc n
      → Prints p.serial.wire
          (echo_all p.serial (codes "Unable to locate ")
            ++ (echo_all p.serial node ++ (echo_all p.serial (codes "!\n"))))
          m
          r
      → Backlit p board node m r

-- The call that sets the status keeps the contract of libfdt and returns 0.
abbrev pub SetsStatus : Platform → Board → List ℕ → ℕ → View → Type 0
SetsStatus p board node n ram =
    let call = p.fdt.setprop ram board.dtb (pos n) (codes "status") (okay p) 0 6 in
    SetpropContract p.fdt ram board.dtb node (codes "status") (bytes_of (okay p) 0 6) call
    × (call.1 ≡ pos 0)

module _ (p : Platform) (g : Globals) (board : Board) (m m' : Machine) (node : List ℕ)
    (fuel : 30 < p.fuel) (backlight : IsBacklight g.system_rev node)
    (common : raumfeld_fixup_dtb_common p g board m ≡ ok tt m') where
  node-IsLine : IsBacklight g.system_rev node → IsChars node × (length node < p.fuel)
  node-IsLine (inl (two, is)) = rw is (omega arith, omega arith)
  node-IsLine (inr (other, is)) = rw is (omega arith, omega arith)

  node_found :
      (n : ℕ)
      → p.fdt.path_offset m'.ram board.dtb node ≡ pos n
      → SetsStatus p board node n m'.ram
      → Backlit p board node m' (raumfeld_fixup_dtb_controller p g board m)
  node_found n there (keeps, zero') =
      enabled n (with_string p g board m'.ram (pos n) (codes "status") (okay p) 0 6) there
        (controller-okay p g board m m' (pos n) common
          (rw (backlight_node_lem g.system_rev node backlight) there) refl (omega arith))
        (subst
          (λ bytes.
            Sets p.fdt m'.ram board.dtb node (codes "status") bytes
              (with_string p g board m'.ram (pos n) (codes "status") (okay p) 0 6))
          (bytes_of-Holds (okay p) 0 (codes "okay") (okay-Holds p g board))
          (setprop-Sets keeps zero'))

  node_missing :
      (n : ℕ)
      → p.fdt.path_offset m'.ram board.dtb node ≡ negsuc n
      → Backlit p board node m' (raumfeld_fixup_dtb_controller p g board m)
  unfolding raumfeld_fixup_dtb_controller
  node_missing n nowhere = unlocated n nowhere (
      rw (common, backlight_node_lem g.system_rev node backlight, nowhere)
        (Prints-seq (say p (codes "Unable to locate ")) _
          (say-Prints p (codes "Unable to locate ") (omega arith) (omega arith) m')
          λ m1 _.
            Prints-seq (say p node) (say p (codes "!\n"))
              (say-Prints p node (node-IsLine backlight).0 (node-IsLine backlight).1 m1)
              λ m2 _. say-Prints p (codes "!\n") (omega arith) (omega arith) m2))

  -- Where the common fixup returns with m', the fuel is more than 30, and, if the tree then has the
  -- backlight's node, the call that sets its status does so and returns 0: the controller's fixup
  -- does the common one and then looks up /backlight-controller for revision 2 of the hardware, and
  -- /backlight-controller-pwm for any other. If the node is there, nothing is printed and its status
  -- is "okay" with the NUL and the byte that the build places behind the literal, and every property
  -- of another node or name is what it was; if not, the fixup prints "Unable to locate ", the node
  -- and "!", and the RAM is what the common fixup left.
  pub controller-Backlit :
      ((n : ℕ) → p.fdt.path_offset m'.ram board.dtb node ≡ pos n → SetsStatus p board node n m'.ram)
      → Backlit p board node m' (raumfeld_fixup_dtb_controller p g board m)
  controller-Backlit sets = by_result (p.fdt.path_offset m'.ram board.dtb node) refl
    where
      by_result :
          (off : ℤ)
          → p.fdt.path_offset m'.ram board.dtb node ≡ off
          → Backlit p board node m' (raumfeld_fixup_dtb_controller p g board m)
      by_result (pos n) there = node_found n there (sets n there)
      by_result (negsuc n) nowhere = node_missing n nowhere
