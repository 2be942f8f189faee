-- ===== src/Matcher/Loader.antt =====
-- main.c with a board file that looks for a device tree behind the loader.
use pxa_impedance_matcher.Base.{
  ℕ, ◌<◌, ◌≡◌, refl, sym, append-nil, none, List, ◌∷◌, ◌++◌, length, All, View, IsChars,
}
use pxa_impedance_matcher.Machine.{Machine, Run, Cmd, pure, ◌>>=◌}
use pxa_impedance_matcher.Machine.Prints.{Prints, Stops, Gives-pure, Stops-seq}
use pxa_impedance_matcher.Machine.Bind.{Gives-bind, Stops-first}
use pxa_impedance_matcher.Dtbs.{Dtb}
use pxa_impedance_matcher.Dtbs.FindDtb.{Names}
use pxa_impedance_matcher.Boards.Shared.{Board, Globals, Platform}
use pxa_impedance_matcher.Boards.Shared.Matched.{Matched, matched, missing, board_of, missing_text}
use pxa_impedance_matcher.Matcher.{Config, Jump, banner, main}
use pxa_impedance_matcher.Matcher.Start.{CanBoot, Boots, banner_text, main_text}
use pxa_impedance_matcher.Matcher.Boot.{banner-Prints, main-Boots-banner}

-- How the loader ends: the kernel is started with the first tree that names the board, or there is
-- none, which is said, and the loader never returns.
pub data Loaded (p : Platform) (cfg : Config) (ram : View) (compat : List ℕ) (bs : List Dtb)
    (pre post : List ℕ) (tags : ℕ) (m : Machine) (r : Run Jump) : Type 0 where
  started :
      (before after : List Dtb) (d : Dtb)
      → bs ≡ before ++ d ∷ after
      → All (λ b. ¬ Names ram compat b) before
      → Names ram compat d
      → Boots p cfg tags
          (board_of p compat none d)
          (main_text p cfg (board_of p compat none d) pre)
          m
          r
      → Loaded p cfg ram compat bs pre post tags m r
  halted :
      All (λ b. ¬ Names ram compat b) bs
      → Stops p.serial.wire (banner_text p cfg ++ (pre ++ missing_text p compat post)) m r
      → Loaded p cfg ram compat bs pre post tags m r

-- A match_board that has no variables of its own.
abbrev pub matcher_of : Cmd Board → Globals → ℕ → ℕ → Cmd (Board × Globals)
matcher_of match_board g machid tags = match_board >>= λ board. pure (board, g)

-- With a match_board that does not return.
pub main-Stops :
    (p : Platform) (cfg : Config) (matcher : ℕ → ℕ → Cmd (Board × Globals)) (machid tags : ℕ)
    (m : Machine) {out : List ℕ} (b : Prints p.serial.wire (banner_text p cfg) m (banner p cfg m))
    → Stops p.serial.wire out b.after (matcher machid tags b.after)
    → Stops p.serial.wire (banner_text p cfg ++ out) m (main p cfg matcher machid tags m)
unfolding main
main-Stops p cfg matcher machid tags m b stops =
    Stops-seq (banner p cfg) _ b (Stops-first (matcher machid tags) _ stops)

module _ (p : Platform) (cfg : Config) (match_board : Cmd Board) (g : Globals) (machid tags : ℕ)
    (m : Machine) where
  pub main-Loaded :
      (compat : List ℕ) (bs : List Dtb) (pre post : List ℕ)
      → 30 < p.fuel
      → IsChars cfg.version
      → length cfg.version < p.fuel
      → ((before after : List Dtb) (d : Dtb)
          → bs ≡ before ++ d ∷ after
          → Names m.ram compat d
          → CanBoot p cfg (board_of p compat none d))
      → ((m' : Machine)
          → m'.ram ≡ m.ram
          → Matched p m.ram compat none bs pre post m' (match_board m'))
      → Loaded p cfg m.ram compat bs pre post tags m
          (main p cfg (matcher_of match_board g) machid tags m)
  main-Loaded compat bs pre post fuel chars short can matches =
      let b = banner-Prints p cfg fuel chars short m in outcome b (matches b.after b.same_ram)
    where
      outcome :
          (b : Prints p.serial.wire (banner_text p cfg) m (banner p cfg m))
          → Matched p m.ram compat none bs pre post b.after (match_board b.after)
          → Loaded p cfg m.ram compat bs pre post tags m
              (main p cfg (matcher_of match_board g) machid tags m)
      outcome b (matched before after d split others there gives) =
          started before after d split others there (
            main-Boots-banner p cfg (board_of p compat none d) (can before after d split there)
              (matcher_of match_board g) machid tags g pre m b
              (rw (sym (append-nil pre)) (
                Gives-bind match_board _ gives
                  (Gives-pure (board_of p compat none d, g) gives.after)))
              refl)
      outcome b (missing none_there stops) = halted none_there (
          main-Stops p cfg (matcher_of match_board g) machid tags m b
            (Stops-first match_board _ stops))
