-- ===== src/Tests/ChosenTags.antt =====
-- The initrd and serial number tags of libfdt/atags_to_fdt.c, with a small library whose trees have
-- three properties in /chosen.
use pxa_impedance_matcher.Base.{
  ℕ, ◌+◌, ◌≡◌, ◌≢◌, ◌⊎◌, ◌∙◌, refl, sym, inl, inr, Option, none, some, List, [], ◌∷◌, codes,
  if◌then◌else◌, Bool-cases, arith, lit, View,
}
use pxa_impedance_matcher.Base.Int.{ℤ, pos, negsuc}
use pxa_impedance_matcher.Ram.{store}
use pxa_impedance_matcher.Endian.{load32, store32, cpu_to_fdt32}
use pxa_impedance_matcher.Machine.{Machine, ok}
use pxa_impedance_matcher.Fdt.{Fdt, Property, value, missing, big_endian}
use pxa_impedance_matcher.Fdt.Contract.{bytes_of, taken, content, Sets, set}
use pxa_impedance_matcher.AtagsToFdt.{initrd_tag, serial_tag}
use pxa_impedance_matcher.AtagsToFdt.Chosen.{celled, initrd_tag-says, serial_tag-says}
use pxa_impedance_matcher.Tests.SmallFdt.{same, same→eq, fill}
use pxa_impedance_matcher.Tests.Addresses.{lit-IsBytes}

abbrev start_name : List ℕ
start_name = codes "linux,initrd-start"

abbrev end_name : List ℕ
end_name = codes "linux,initrd-end"

abbrev serial_name : List ℕ
serial_name = codes "linux,serial-number"

-- Where a property of /chosen stands in a tree.
abbrev slot : ℕ → List ℕ → Property
slot dtb name =
    if same name start_name
    then value (dtb + 32) 4
    else (if same name end_name
        then value (dtb + 36) 4
        else (if same name serial_name then value (dtb + 40) 8 else missing (negsuc 0)))

abbrev write : View → Property → View → ℕ → View × ℤ
write ram (value a n) v val = (fill ram a (bytes_of v val n), pos 0)
write ram (missing e) v val = (ram, e)

abbrev slots : Fdt
slots = record {
  path_offset = λ ram dtb path. if same path (codes "/chosen") then pos 8 else negsuc 0;
  getprop = λ ram dtb off name. slot dtb name;
  setprop = λ ram dtb off name v val len. write ram (slot dtb name) v val;
  add_subnode = λ ram d off name. (ram, negsuc 2);
  open_into = λ ram d buf size. (ram, pos 0);
  pack = λ ram d. (ram, pos 0);
}

abbrev said : View → List ℕ → List ℕ → Option (List ℕ)
said ram path name = if same path (codes "/chosen") then taken ram (slot 0x1000 name) else none

slots-said :
    (ram : View) (path name : List ℕ) → content slots ram 0x1000 path name ≡ said ram path name
slots-said ram path name = elim (Bool-cases (same path (codes "/chosen"))) [
  | inl chosen ↦ rw chosen
  | inr other ↦ rw other
]

-- A property of another name is as it was.
Kept : View → View → List ℕ → Type 0
Kept ram out name =
    (name' : List ℕ) → name' ≢ name → taken out (slot 0x1000 name') ≡ taken ram (slot 0x1000 name')

slots-others :
    (ram out : View) (name : List ℕ)
    → Kept ram out name
    → (path name' : List ℕ) → (slots.path_offset ram 0x1000 path ≢ pos 8) ⊎ (name' ≢ name)
    → content slots out 0x1000 path name' ≡ content slots ram 0x1000 path name'
unfolding Kept
slots-others ram out name kept path name' differs =
    slots-said out path name'
    ∙ elim (Bool-cases (same path (codes "/chosen"))) [
      | inl chosen ↦ elim differs [
        | inl off ↦ absurd (off (rw chosen refl))
        | inr ne ↦ rw chosen (kept name' ne)
      ]
      | inr other ↦ rw other refl
    ]
    ∙ sym (slots-said ram path name')

kept :
    (ram out : View) (name : List ℕ)
    → (start_name ≢ name → bytes_of out 0x1020 4 ≡ bytes_of ram 0x1020 4)
    → (end_name ≢ name → bytes_of out 0x1024 4 ≡ bytes_of ram 0x1024 4)
    → (serial_name ≢ name → bytes_of out 0x1028 8 ≡ bytes_of ram 0x1028 8)
    → Kept ram out name
unfolding Kept
kept ram out name one two three name' ne = elim (Bool-cases (same name' start_name)) [
  | inl is_start ↦ rw (is_start, one (λ e. ne (same→eq name' start_name is_start ∙ e))) refl
  | inr not_start ↦ elim (Bool-cases (same name' end_name)) [
    | inl is_end ↦ rw (not_start, is_end, two (λ e. ne (same→eq name' end_name is_end ∙ e))) refl
    | inr not_end ↦ elim (Bool-cases (same name' serial_name)) [
      | inl is_serial ↦
          rw
            (
              not_start,
              not_end,
              is_serial,
              three (λ e. ne (same→eq name' serial_name is_serial ∙ e)),
            )
            refl
      | inr not_serial ↦ rw (not_start, not_end, not_serial) refl
    ]
  ]
]

-- An initrd of 2 bytes at 1, or the serial number with the low word 1 and the high word 2.
abbrev tag_bytes : List ℕ
tag_bytes = 0 ∷ 0 ∷ 0 ∷ 0 ∷ 0 ∷ 0 ∷ 0 ∷ 0 ∷ 1 ∷ 0 ∷ 0 ∷ 0 ∷ 2 ∷ []

abbrev machine : Machine
machine = record { ram = lit tag_bytes; history = [] }

abbrev started : View
started = celled slots 9 0x1000 machine.ram 8 start_name 1

start_set :
    Sets slots machine.ram 0x1000 (codes "/chosen") start_name (bytes_of (big_endian 1) 0 4) started
unfolding store
start_set = record {
  now = refl;
  others =
      slots-others machine.ram started start_name
        (kept machine.ram started start_name (λ ne. absurd (ne refl)) (λ ne. refl) (λ ne. refl));
}

abbrev ended : View
ended = celled slots 9 0x1000 started 8 end_name 3

end_set : Sets slots started 0x1000 (codes "/chosen") end_name (bytes_of (big_endian 3) 0 4) ended
unfolding store
end_set = record {
  now = refl;
  others =
      slots-others started ended end_name
        (kept started ended end_name (λ ne. refl) (λ ne. absurd (ne refl)) (λ ne. refl));
}

initrd_tag-says_example :
    (initrd_tag slots 9 0x1000 0 machine ≡ ok (pos 0) (record machine { ram = ended }))
    × (content slots ended 0x1000 (codes "/chosen") start_name ≡ some (0 ∷ 0 ∷ 0 ∷ 1 ∷ []))
    × (content slots ended 0x1000 (codes "/chosen") end_name ≡ some (0 ∷ 0 ∷ 0 ∷ 3 ∷ []))
    × ((path name : List ℕ)
        → name ≢ start_name
        → name ≢ end_name
        → content slots ended 0x1000 path name ≡ content slots machine.ram 0x1000 path name)
unfolding load32
initrd_tag-says_example =
    initrd_tag-says slots 9 0x1000 0 8 8 machine (lit-IsBytes tag_bytes (omega arith)) refl refl
      (set start_set refl, refl) (set end_set refl, refl)

-- The RAM with the number at 0x4000.
abbrev numbered : View
numbered = store32 (store32 machine.ram 0x4000 0x2000000) 0x4004 0x1000000

abbrev serialled : View
serialled = (slots.setprop numbered 0x1000 (pos 8) serial_name numbered 0x4000 8).0

serial_set :
    Sets slots numbered 0x1000 (codes "/chosen") serial_name (bytes_of numbered 0x4000 8) serialled
unfolding store
serial_set = record {
  now = refl;
  others =
      slots-others numbered serialled serial_name
        (kept numbered serialled serial_name (λ ne. refl) (λ ne. refl) (λ ne. absurd (ne refl)));
}

serial_tag-says_example :
    (serial_tag slots 9 0x1000 0x4000 0 machine ≡ ok (pos 0) (record machine { ram = serialled }))
    × (content slots serialled 0x1000 (codes "/chosen") serial_name
        ≡ some (0 ∷ 0 ∷ 0 ∷ 2 ∷ 0 ∷ 0 ∷ 0 ∷ 1 ∷ []))
unfolding load32 cpu_to_fdt32
serial_tag-says_example =
    serial_tag-says slots 9 0x1000 0x4000 0 8 machine (lit-IsBytes tag_bytes (omega arith)) refl
      (set serial_set refl, refl)
