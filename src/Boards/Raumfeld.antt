-- ===== src/Boards/Raumfeld.antt =====
-- match_board of board-raumfeld.c. The number of rounds is how long the LEDs blink in a panic.
pub mod Led
pub mod Table
pub mod Fixups
pub mod Select
pub mod Tags
pub mod LastLine
pub mod Ends
pub mod Match
pub mod Passed
use pxa_impedance_matcher.Base.{ℕ, Option, none, some, ◌==◌, if◌then◌else◌, codes}
use pxa_impedance_matcher.Base.Int.{ℤ, pos, is_neg}
use pxa_impedance_matcher.Machine.{Machine, Run, undefined, Cmd, pure, ◌>>=◌, ◌>>◌, lift, get_ram}
use pxa_impedance_matcher.Fdt.{value, missing}
use pxa_impedance_matcher.Print.{printhex, putstr}
use pxa_impedance_matcher.Atags.{atag_revision, atag_cmdline, tag_kind, tag_body, for_each_tag}
use pxa_impedance_matcher.Endian.{load32}
use pxa_impedance_matcher.Boards.Shared.{Fixup, Board, Globals, Platform, say, finish_match}
use pxa_impedance_matcher.Boards.Raumfeld.Led.{led_panic}
use pxa_impedance_matcher.Boards.Raumfeld.Table.{
  RaumfeldBoard, rboards, find_machid, find_compatible,
}

-- The board that is looked for, `none` for NULL, and the variables.
abbrev Choice : Type 0
Choice = Option RaumfeldBoard × Globals

module _ (p : Platform) where
  -- The part of a device tree: revision, command line and `compatible` come from the properties of
  -- the tree at `tags`.
  unfoldable pub dtb_revision : ℕ → ℕ → Cmd ℕ
  dtb_revision dtb rev = do
    ram ← get_ram
    elim (p.fdt.getprop ram dtb (pos 0) (codes "hw-revision")) [
      | value val _ ↦ pure (load32 ram val)
      | missing _ ↦ say p (codes "Error reading /hw-revision from DTB!\n") >> pure rev
    ]

  unfoldable pub dtb_bootargs : ℕ → ℤ → Cmd ℕ
  dtb_bootargs dtb off = do
    ram ← get_ram
    elim (p.fdt.getprop ram dtb off (codes "bootargs")) [
      | value val _ ↦ (do
        say p (codes "Got command line from DTB: >")
        putstr p.serial p.fuel ram val
        say p (codes "<\n")
        pure val)
      | missing _ ↦ say p (codes "Error reading /chosen/bootargs from DTB!\n") >> pure 0
    ]

  unfoldable pub dtb_cmdline : ℕ → Cmd ℕ
  unfolding dtb_bootargs
  dtb_cmdline dtb = do
    ram ← get_ram
    let off = p.fdt.path_offset ram dtb (codes "/chosen")
    if is_neg off
        then (say p (codes "Error looking for /chosen node!\n") >> pure 0)
        else dtb_bootargs dtb off

  unfoldable pub dtb_board : ℕ → Cmd (Option RaumfeldBoard)
  dtb_board dtb = do
    ram ← get_ram
    elim (p.fdt.getprop ram dtb (pos 0) (codes "compatible")) [
      | value val _ ↦ (do
        say p (codes "Got compatible string from passed DTB: ")
        putstr p.serial p.fuel ram val
        say p (codes "\n")
        b ← lift (find_compatible p.fuel rboards ram val)
        pure (some b))
      | missing _ ↦ say p (codes "Error reading /compatible from DTB!\n") >> pure none
    ]

  unfoldable pub from_dtb : ℕ → Globals → Cmd Choice
  unfolding dtb_revision dtb_cmdline dtb_board
  from_dtb dtb g = do
    rev ← dtb_revision dtb g.system_rev
    cmdline ← dtb_cmdline dtb
    b ← dtb_board dtb
    pure (b, record { system_rev = rev; cmdline = cmdline })

  -- The body of the walk over the tags.
  unfoldable pub read_tag : ℕ → Globals → Cmd Globals
  read_tag t g = do
    ram ← get_ram
    if tag_kind ram t == atag_revision
        then (do
          let rev = load32 ram (tag_body t)
          say p (codes "System revision: ")
          printhex p.serial rev
          say p (codes "\n")
          pure (record g { system_rev = rev }))
        else (if tag_kind ram t == atag_cmdline
            then (do
              say p (codes "Got command line from atags: >")
              putstr p.serial p.fuel ram (tag_body t)
              say p (codes "<\n")
              pure (record g { cmdline = tag_body t }))
            else pure g)

  unfoldable pub from_atags : ℕ → ℕ → Globals → Cmd Choice
  unfolding read_tag
  from_atags machid tags g = do
    g' ← for_each_tag p.fuel read_tag tags g
    elim (find_machid rboards machid g'.system_rev) [
      | none ↦ λ _. undefined
      | some b ↦ pure (some b, g')
    ]

  -- No board: the message, and the LEDs blink.
  unfoldable pub no_board : ℕ → ℕ → ℕ → Cmd Board
  no_board rounds machid rev = do
    say p (codes "ERROR MATCHING BOARD!\n")
    say p (codes "MACHID: 0x")
    printhex p.serial machid
    say p (codes "\n")
    say p (codes "SYSTEM_REV: 0x")
    printhex p.serial rev
    say p (codes "\n")
    led_panic p.dev p.fuel rounds

  unfoldable pub use_board : ℕ → ℕ → Option RaumfeldBoard → Globals → Cmd Board
  unfolding no_board
  use_board rounds machid none g = no_board rounds machid g.system_rev
  use_board rounds machid (some b) g = elim b.compatible [
    | none ↦ no_board rounds machid g.system_rev
    | some compat ↦ finish_match p compat b.fixup_dtb (led_panic p.dev p.fuel rounds)
  ]

  -- `system_rev` keeps its value, 0 at the start, where nothing sets it.
  unfoldable pub match_board : ℕ → ℕ → ℕ → ℕ → Cmd (Board × Globals)
  unfolding from_dtb from_atags use_board
  match_board rounds machid tags system_rev = do
    let g : Globals = record { system_rev = system_rev; cmdline = 0 }
    (b, g') ← if machid == 0xffffffff then from_dtb tags g else from_atags machid tags g
    board ← use_board rounds machid b g'
    pure (board, g')
