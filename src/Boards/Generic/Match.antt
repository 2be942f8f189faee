-- ===== src/Boards/Generic/Match.antt =====
-- match_board of board-generic.c against the command lines that the tags hold.
use pxa_impedance_matcher.Base.{
  ℕ, ◌<◌, ◌≡◌, inl, inr, none, List, [], ◌∷◌, ◌++◌, arith, ◌==◌, if◌then◌else◌, Bool-cases, codes,
  length, done,
}
use pxa_impedance_matcher.Machine.{Machine, ok}
use pxa_impedance_matcher.Machine.Prints.{Prints, Gives, Gives-pure, Prints-seq, Prints-Gives}
use pxa_impedance_matcher.Print.{printhex}
use pxa_impedance_matcher.Print.Output.{echo_all, emits_all, hex_text, printhex-Prints}
use pxa_impedance_matcher.Boards.Generic.Addresses.{
  addresses, addresses-nil, addresses-cmdline, addresses-other,
}
use pxa_impedance_matcher.Atags.{atag_cmdline, tag_kind}
use pxa_impedance_matcher.Atags.Walk.{Tags, run_all, KeepsRam, for_each_tag-run_all}
use pxa_impedance_matcher.Boards.Shared.{Platform, say}
use pxa_impedance_matcher.Boards.Shared.Matched.{say-Prints}
use pxa_impedance_matcher.Boards.Generic.{read_tag, report_kernel, report_dtb, match_board}

module _ (p : Platform) where
  read_tag-KeepsRam : KeepsRam (read_tag p)
  unfolding read_tag
  read_tag-KeepsRam t s m s' m' e = ground arith

  run_all-addresses :
      (m : Machine) (ts : List ℕ) (k d k' d' : ℕ)
      → addresses p.fuel m.ram ts k d ≡ done (k', d')
      → run_all (read_tag p) ts (record { kernel = k; dtb = d }) m
        ≡ ok (record { kernel = k'; dtb = d' }) m
  unfolding read_tag
  run_all-addresses m [] k d k' d' e =
      let (same_k, same_d) = addresses-nil p.fuel m.ram k d k' d' e in rw (same_k, same_d)
  run_all-addresses m (t ∷ ts) k d k' d' e = elim (Bool-cases (tag_kind m.ram t == atag_cmdline)) [
    | inl hit ↦
        let (a, got, rest) = addresses-cmdline p.fuel m.ram t ts k d hit e in
        rw (hit, got) (run_all-addresses m ts a.k a.d k' d' rest)
    | inr miss ↦
        rw miss (run_all-addresses m ts k d k' d' (addresses-other p.fuel m.ram t ts k d miss e))
  ]

  -- What is printed of the two addresses.
  abbrev pub kernel_text : ℕ → List ℕ
  kernel_text kernel =
      if kernel == 0
      then echo_all p.serial (codes "Kernel: Appended")
      else echo_all p.serial (codes "Kernel: 0x") ++ emits_all p.serial (hex_text kernel)

  abbrev pub dtb_text : ℕ → List ℕ
  dtb_text dtb =
      if dtb == 0
      then echo_all p.serial (codes "** DTB Not Found! **")
      else echo_all p.serial (codes "DTB:    0x") ++ emits_all p.serial (hex_text dtb)

  report_kernel-Prints :
      22 < p.fuel
      → (k : ℕ) (m : Machine) → Prints p.serial.wire (kernel_text k) m (report_kernel p k m)
  unfolding report_kernel
  report_kernel-Prints fuel k m = elim (Bool-cases (k == 0)) [
    | inl null ↦ rw null (say-Prints p (codes "Kernel: Appended") (omega arith) (omega arith) m)
    | inr set ↦ rw set (
        Prints-seq (say p (codes "Kernel: 0x")) (printhex p.serial k)
          (say-Prints p (codes "Kernel: 0x") (omega arith) (omega arith) m)
          λ m' _. printhex-Prints p.serial k m')
  ]

  report_dtb-Prints :
      22 < p.fuel → (d : ℕ) (m : Machine) → Prints p.serial.wire (dtb_text d) m (report_dtb p d m)
  unfolding report_dtb
  report_dtb-Prints fuel d m = elim (Bool-cases (d == 0)) [
    | inl null ↦ rw null (say-Prints p (codes "** DTB Not Found! **") (omega arith) (omega arith) m)
    | inr set ↦ rw set (
        Prints-seq (say p (codes "DTB:    0x")) (printhex p.serial d)
          (say-Prints p (codes "DTB:    0x") (omega arith) (omega arith) m)
          λ m' _. printhex-Prints p.serial d m')
  ]

  -- Where the tags end within the fuel and getaddrs ends on each of their command lines, the
  -- generic match_board takes the addresses from those command lines, a later one over an earlier
  -- one, prints each, or that it is missing, and returns them in a board that has no name and no
  -- fixup.
  pub match_board-generic :
      (m : Machine) (tags : ℕ) (ts : List ℕ) (k d : ℕ)
      → Tags m.ram tags ts
      → length ts < p.fuel
      → 22 < p.fuel
      → addresses p.fuel m.ram ts 0 0 ≡ done (k, d)
      → Gives p.serial.wire
          (kernel_text k
            ++ (echo_all p.serial (codes "\n")
                ++ (dtb_text d ++ (echo_all p.serial (codes "\n") ++ []))))
          (record { dtb = d; dtb_size = 0; kernel = k; compatible = none; fixup_dtb = none })
          m
          (match_board p tags m)
  unfolding match_board
  match_board-generic m tags ts k d chain count fuel e =
      rw
        (
          for_each_tag-run_all (read_tag p) read_tag-KeepsRam p.fuel m tags ts _ chain count,
          run_all-addresses m ts 0 0 k d e,
        )
        (Prints-Gives (report_kernel p k) _ (report_kernel-Prints fuel k m) λ m1 _.
          Prints-Gives (say p (codes "\n")) _
            (say-Prints p (codes "\n") (omega arith) (omega arith) m1)
            λ m2 _. Prints-Gives (report_dtb p d) _ (report_dtb-Prints fuel d m2) λ m3 _.
              Prints-Gives (say p (codes "\n")) _
                (say-Prints p (codes "\n") (omega arith) (omega arith) m3) λ m4 _. Gives-pure _ m4)
