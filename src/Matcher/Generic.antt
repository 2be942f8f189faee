-- ===== src/Matcher/Generic.antt =====
-- The whole loader for the generic board: main.c with board-generic.c.
use pxa_impedance_matcher.Base.{
  ℕ, ◌+◌, ◌≡◌, ◌≢◌, ◌<◌, refl, sym, none, List, [], ◌∷◌, ◌++◌, append-nil, arith, eq→==, ne→==,
  codes, length, All, done, View, IsBytes, Stores,
}
use pxa_impedance_matcher.Base.Int.{pos}
use pxa_impedance_matcher.Machine.{Machine, Cmd, pure, ◌>>=◌}
use pxa_impedance_matcher.Machine.Prints.{Gives, Gives-pure}
use pxa_impedance_matcher.Machine.Bind.{Gives-bind}
use pxa_impedance_matcher.Print.Output.{echo_all}
use pxa_impedance_matcher.Hex.{Addrs, getaddrs}
use pxa_impedance_matcher.Hex.Digits.{hex_value}
use pxa_impedance_matcher.Hex.Options.{appended}
use pxa_impedance_matcher.Hex.Found.{IsAddress, HasOption, Fits, end_of, getaddrs-both}
use pxa_impedance_matcher.Atags.{atag_cmdline, tag_kind, tag_body}
use pxa_impedance_matcher.Atags.Walk.{Tags}
use pxa_impedance_matcher.Boards.Shared.{Board, Globals, Platform}
use pxa_impedance_matcher.Boards.Generic.{match_board}
use pxa_impedance_matcher.Boards.Generic.Addresses.{addresses}
use pxa_impedance_matcher.Boards.Generic.Match.{kernel_text, dtb_text, match_board-generic}
use pxa_impedance_matcher.Matcher.{Config, main}
use pxa_impedance_matcher.Matcher.Start.{CanBoot, Boots, main_text}
use pxa_impedance_matcher.Matcher.Boot.{main-Boots}

-- The tag is not a command line.
abbrev pub IsOther : View → ℕ → Type 0
IsOther ram t = tag_kind ram t ≢ atag_cmdline

module _ (f : ℕ) (ram : View) where
  addresses-others :
      (ts : List ℕ) (k d : ℕ) → All (IsOther ram) ts → addresses f ram ts k d ≡ done (k, d)
  unfolding addresses
  addresses-others [] k d others = refl
  addresses-others (t ∷ ts) k d others =
      rw (ne→== (tag_kind ram t) atag_cmdline others.0) (addresses-others ts k d others.1)

  -- One command line among the tags.
  addresses-one :
      (before after : List ℕ) (t k d : ℕ) (a : Addrs)
      → All (IsOther ram) before
      → tag_kind ram t ≡ atag_cmdline
      → All (IsOther ram) after
      → getaddrs f ram (tag_body t) k d ≡ done a
      → addresses f ram (before ++ t ∷ after) k d ≡ done (a.k, a.d)
  unfolding addresses
  addresses-one [] after t k d a none_before line none_after e =
      rw (eq→== (tag_kind ram t) atag_cmdline line, e) (addresses-others after a.k a.d none_after)
  addresses-one (b ∷ before) after t k d a none_before line none_after e =
      rw (ne→== (tag_kind ram b) atag_cmdline none_before.0)
        (addresses-one before after t k d a none_before.1 line none_after e)

-- The board that the command line describes.
abbrev pub addressed : ℕ → ℕ → Board
addressed k d = record { dtb = d; dtb_size = 0; kernel = k; compatible = none; fixup_dtb = none }

module _ (p : Platform) where
  -- What match_board prints.
  abbrev pub addresses_text : ℕ → ℕ → List ℕ
  addresses_text k d =
      kernel_text p k
      ++ (echo_all p.serial (codes "\n")
          ++ (dtb_text p d ++ (echo_all p.serial (codes "\n") ++ [])))

module _ (p : Platform) (cfg : Config) (g : Globals) where
  -- match_board with its arguments: it does not look at the machine's identifier.
  abbrev pub generic_matcher : ℕ → ℕ → Cmd (Board × Globals)
  generic_matcher machid tags = match_board p tags >>= λ board. pure (board, g)

  -- Where the tags end within the fuel and one of them is a command line, which names the option
  -- with the addresses of both, each a hexadecimal number of at most eight digits behind an 'x', the
  -- kernel's followed by a comma and the tree's by a delimiter, and with a build that main can boot
  -- with these addresses (CanBoot), the generic loader prints its messages and starts the kernel at
  -- the first number, or the appended one if that is 0, with the tree at the second, moved with a
  -- size of 0 if the build moves it, or with the caller's tags if that is 0.
  pub generic-Boots :
      (m : Machine) (machid tags t : ℕ) (before after junk ks ds : List ℕ) (s : ℕ)
      → Tags m.ram tags (before ++ t ∷ after)
      → length (before ++ t ∷ after) < p.fuel
      → All (IsOther m.ram) before
      → tag_kind m.ram t ≡ atag_cmdline
      → All (IsOther m.ram) after
      → IsBytes m.ram
      → HasOption m.ram (tag_body t) junk
      → length junk < p.fuel
      → ¬ Stores m.ram (tag_body t + length junk + 10) appended
      → (kernel : IsAddress m.ram (tag_body t + length junk + 10) ks b',')
        (dtb : IsAddress m.ram (end_of kernel + 1) ds s)
      → Fits kernel p.fuel
      → Fits dtb p.fuel
      → CanBoot p cfg (addressed (hex_value ks) (hex_value ds))
      → Boots p cfg tags
          (addressed (hex_value ks) (hex_value ds))
          (main_text p cfg
            (addressed (hex_value ks) (hex_value ds))
            (addresses_text p (hex_value ks) (hex_value ds)))
          m
          (main p cfg generic_matcher machid tags m)
  generic-Boots m machid tags t before after junk ks ds s walk count none_before line none_after
        bytes option fuel named kernel dtb fits_k fits_d can =
      let read = getaddrs-both bytes option p.fuel 0 0 kernel dtb named fuel fits_k fits_d in
      let found =
        addresses-one p.fuel m.ram before after t 0 0
          (record { ret = pos 0; k = hex_value ks; d = hex_value ds }) none_before line none_after
          read in
      main-Boots p cfg (addressed (hex_value ks) (hex_value ds)) can generic_matcher machid tags g
        (addresses_text p (hex_value ks) (hex_value ds)) m (matches found) refl
    where
      matches :
          addresses p.fuel m.ram (before ++ t ∷ after) 0 0 ≡ done (hex_value ks, hex_value ds)
          → (m' : Machine) → m'.ram ≡ m.ram
          → Gives p.serial.wire
              (addresses_text p (hex_value ks) (hex_value ds))
              (addressed (hex_value ks) (hex_value ds), g)
              m'
              (generic_matcher machid tags m')
      matches found m' same =
          let first =
            match_board-generic p m' tags (before ++ t ∷ after) (hex_value ks) (hex_value ds)
              (rw same walk) count (omega (arith, can.fuel)) (rw same found) in
          rw (sym (append-nil (addresses_text p (hex_value ks) (hex_value ds))))
            (Gives-bind (match_board p tags) _ first (Gives-pure _ first.after))
