-- ===== src/Atags.antt =====
-- atags.h: the list of tags that the boot loader passes.
pub mod Walk
pub mod Folds
pub mod Struct
pub mod Encoded
use pxa_impedance_matcher.Base.{ℕ, zero, suc, ◌+◌, ◌*◌, ◌^◌, ◌==◌, if◌then◌else◌, View, u32}
use pxa_impedance_matcher.Endian.{load32}
use pxa_impedance_matcher.Machine.{Machine, Run, no_fuel, Cmd, pure, ◌>>=◌, ◌>>◌, get_ram}

abbrev pub atag_revision : ℕ
atag_revision = 0x54410007

abbrev pub atag_cmdline : ℕ
atag_cmdline = 0x54410009

-- `t->hdr.size`, `t->hdr.tag` and `&t->u`.
abbrev pub tag_size : View → ℕ → ℕ
tag_size ram t = load32 ram t

abbrev pub tag_kind : View → ℕ → ℕ
tag_kind ram t = load32 ram (t + 4)

abbrev pub tag_body : ℕ → ℕ
tag_body t = t + 8

-- `(struct tag *)((u32 *)(t) + (t)->hdr.size)`
unfoldable pub tag_next : View → ℕ → ℕ
tag_next ram t = u32 (t + 4 * tag_size ram t)

-- `for (t = base; t->hdr.size; t = tag_next(t))` over a state that the body changes.
unfoldable pub for_each_tag : {S : Type 0} → ℕ → (ℕ → S → Cmd S) → ℕ → S → Cmd S
for_each_tag zero body t s = λ _. no_fuel
for_each_tag (suc f) body t s = do
  ram ← get_ram
  if tag_size ram t == 0
      then pure s
      else do s' ← body t s; ram' ← get_ram; for_each_tag f body (tag_next ram' t) s'
