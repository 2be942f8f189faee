-- ===== src/Boards/Generic.antt =====
-- board-generic.c: the command line gives the addresses of kernel and device tree.
pub mod Addresses
pub mod Match
use pxa_impedance_matcher.Base.{ℕ, none, ◌==◌, if◌then◌else◌, codes}
use pxa_impedance_matcher.Machine.{Machine, Run, Cmd, pure, ◌>>=◌, ◌>>◌, lift, get_ram}
use pxa_impedance_matcher.Print.{printhex}
use pxa_impedance_matcher.Hex.{Addrs, getaddrs}
use pxa_impedance_matcher.Atags.{atag_cmdline, tag_kind, tag_body, for_each_tag}
use pxa_impedance_matcher.Boards.Shared.{Board, Platform, say}

-- `genboard.kernel` and `genboard.dtb`.
pub record Found : Type 0 where
  pub kernel : ℕ
  pub dtb : ℕ

module _ (p : Platform) where
  -- The body of the walk. The result of getaddrs is not looked at.
  unfoldable pub read_tag : ℕ → Found → Cmd Found
  read_tag t b = do
    ram ← get_ram
    if tag_kind ram t == atag_cmdline
        then (do
          a ← lift (getaddrs p.fuel ram (tag_body t) b.kernel b.dtb)
          pure (record { kernel = a.k; dtb = a.d }))
        else pure b

  report_kernel : ℕ → Cmd (Unit {0})
  report_kernel kernel =
      if kernel == 0
      then say p (codes "Kernel: Appended")
      else (say p (codes "Kernel: 0x") >> printhex p.serial kernel)

  report_dtb : ℕ → Cmd (Unit {0})
  report_dtb dtb =
      if dtb == 0
      then say p (codes "** DTB Not Found! **")
      else (say p (codes "DTB:    0x") >> printhex p.serial dtb)

  unfoldable pub match_board : ℕ → Cmd Board
  unfolding read_tag report_kernel report_dtb
  match_board tags = do
    b ← for_each_tag p.fuel read_tag tags (record { kernel = 0; dtb = 0 })
    report_kernel b.kernel
    say p (codes "\n")
    report_dtb b.dtb
    say p (codes "\n")
    pure (record {
      dtb = b.dtb;
      dtb_size = 0;
      kernel = b.kernel;
      compatible = none;
      fixup_dtb = none;
    })
