-- ===== src/Atags/Struct.antt =====
-- libfdt/setup.h: the kinds of tag, the structs of their bodies, and how a compiler for ARM lays a
-- struct out.
use pxa_impedance_matcher.Base.{
  ℕ, ◌+◌, ◌-◌, ◌*◌, ◌/◌, String, Bool, true, false, ◌&&◌, List, [], ◌∷◌, leb, ◌==◌, if◌then◌else◌,
  codes, View,
}
use pxa_impedance_matcher.Endian.{load32}
use pxa_impedance_matcher.Atags.{tag_size, tag_body}

-- A member of a struct: its name and its size in bytes.
pub record Member : Type 0 where
  pub name : String
  pub width : ℕ

abbrev pub Struct : Type 0
Struct = List Member

abbrev pub byte : String → Member
byte name = record { name = name; width = 1 }

abbrev pub half : String → Member
half name = record { name = name; width = 2 }

abbrev pub word : String → Member
word name = record { name = name; width = 4 }

abbrev pub tag_header : Struct
tag_header = word "size" ∷ word "tag" ∷ []

abbrev pub tag_core : Struct
tag_core = word "flags" ∷ word "pagesize" ∷ word "rootdev" ∷ []

abbrev pub tag_mem32 : Struct
tag_mem32 = word "size" ∷ word "start" ∷ []

abbrev pub tag_videotext : Struct
tag_videotext =
    byte "x"
    ∷ byte "y"
    ∷ half "video_page"
    ∷ byte "video_mode"
    ∷ byte "video_cols"
    ∷ half "video_ega_bx"
    ∷ byte "video_lines"
    ∷ byte "video_isvga"
    ∷ half "video_points"
    ∷ []

abbrev pub tag_ramdisk : Struct
tag_ramdisk = word "flags" ∷ word "size" ∷ word "start" ∷ []

abbrev pub tag_initrd : Struct
tag_initrd = word "start" ∷ word "size" ∷ []

abbrev pub tag_serialnr : Struct
tag_serialnr = word "low" ∷ word "high" ∷ []

abbrev pub tag_revision : Struct
tag_revision = word "rev" ∷ []

abbrev pub tag_videolfb : Struct
tag_videolfb =
    half "lfb_width"
    ∷ half "lfb_height"
    ∷ half "lfb_depth"
    ∷ half "lfb_linelength"
    ∷ word "lfb_base"
    ∷ word "lfb_size"
    ∷ byte "red_size"
    ∷ byte "red_pos"
    ∷ byte "green_size"
    ∷ byte "green_pos"
    ∷ byte "blue_size"
    ∷ byte "blue_pos"
    ∷ byte "rsvd_size"
    ∷ byte "rsvd_pos"
    ∷ []

abbrev pub tag_cmdline : Struct
tag_cmdline = byte "cmdline" ∷ []

abbrev pub tag_acorn : Struct
tag_acorn =
    word "memc_control_reg" ∷ word "vram_pages" ∷ byte "sounddefault" ∷ byte "adfsdrives" ∷ []

abbrev pub tag_memclk : Struct
tag_memclk = word "fmemclk" ∷ []

-- The union of a tag's body.
pub data Body : Type 0 where
  core : Body
  mem : Body
  videotext : Body
  ramdisk : Body
  initrd : Body
  serialnr : Body
  revision : Body
  videolfb : Body
  cmdline : Body
  acorn : Body
  memclk : Body

abbrev pub struct_of : Body → Struct
struct_of core = tag_core
struct_of mem = tag_mem32
struct_of videotext = tag_videotext
struct_of ramdisk = tag_ramdisk
struct_of initrd = tag_initrd
struct_of serialnr = tag_serialnr
struct_of revision = tag_revision
struct_of videolfb = tag_videolfb
struct_of cmdline = tag_cmdline
struct_of acorn = tag_acorn
struct_of memclk = tag_memclk

-- The kinds, `hdr.tag`. ATAG_INITRD has the body of ATAG_INITRD2.
abbrev pub atag_none : ℕ
atag_none = 0

abbrev pub atag_core : ℕ
atag_core = 0x54410001

abbrev pub atag_mem : ℕ
atag_mem = 0x54410002

abbrev pub atag_videotext : ℕ
atag_videotext = 0x54410003

abbrev pub atag_ramdisk : ℕ
atag_ramdisk = 0x54410004

abbrev pub atag_initrd : ℕ
atag_initrd = 0x54410005

abbrev pub atag_initrd2 : ℕ
atag_initrd2 = 0x54420005

abbrev pub atag_serial : ℕ
atag_serial = 0x54410006

abbrev pub atag_videolfb : ℕ
atag_videolfb = 0x54410008

abbrev pub atag_acorn : ℕ
atag_acorn = 0x41000101

abbrev pub atag_memclk : ℕ
atag_memclk = 0x41000402

-- The layout: a member stands at the next multiple of its size.
abbrev pub round_up : ℕ → ℕ → ℕ
round_up n width = (n + (width - 1)) / width * width

abbrev pub align : Struct → ℕ
align [] = 1
align (m ∷ ms) = if leb (align ms) m.width then m.width else align ms

-- The end of the last member, where the first may stand from `at` on.
abbrev pub end_from : ℕ → Struct → ℕ
end_from at [] = at
end_from at (m ∷ ms) = end_from (round_up at m.width + m.width) ms

abbrev pub sizeof : Struct → ℕ
sizeof s = round_up (end_from 0 s) (align s)

abbrev same_text : List ℕ → List ℕ → Bool
same_text [] [] = true
same_text [] (y ∷ ys) = false
same_text (x ∷ xs) [] = false
same_text (x ∷ xs) (y ∷ ys) = x == y && same_text xs ys

abbrev pub offset_from : ℕ → Struct → String → ℕ
offset_from at [] name = at
offset_from at (m ∷ ms) name =
    if same_text (codes m.name) (codes name)
    then round_up at m.width
    else offset_from (round_up at m.width + m.width) ms name

-- The offset of a member that the struct has.
abbrev pub offset_of : Struct → String → ℕ
offset_of s name = offset_from 0 s name

-- `t->u.s.name`, a word.
abbrev pub member : View → ℕ → Struct → String → ℕ
member ram t s name = load32 ram (tag_body t + offset_of s name)

-- tag_size(type): words for the header and the body.
abbrev pub tag_words : Struct → ℕ
tag_words s = (sizeof tag_header + sizeof s) / 4

-- tag_member_present(tag, u.s): the end of the member, against the size in the header.
abbrev pub tag_member_present : View → ℕ → Struct → Bool
tag_member_present ram t s = leb (sizeof tag_header + sizeof s) (tag_size ram t * 4)
