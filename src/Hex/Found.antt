-- ===== src/Hex/Found.antt =====
-- getaddrs of string.c on a command line that names the option.
use pxa_impedance_matcher.Base.{
  ℕ, zero, suc, ◌+◌, ◌≤◌, ◌<◌, ◌≡◌, ap, inl, inr, false, none, some, List, [], ◌∷◌, ◌++◌, arith,
  Bool-cases, eq→==, ne→==, codes, length, length-append, All, done, fault, ◌>>=◌, View, lit, Holds,
  Stores, Holds-end, IsBytes, Stores-append,
}
use pxa_impedance_matcher.Base.Int.{pos, is_zero}
use pxa_impedance_matcher.Str.{strncmp}
use pxa_impedance_matcher.Hex.{
  is_delimiter, scan_end, gethexaddr, kernel_addr, after_kernel, getaddrs,
}
use pxa_impedance_matcher.Hex.Digits.{IsHex, hex_value}
use pxa_impedance_matcher.Hex.Address.{IsPlain, IsDelimiter, gethexaddr_lem}
use pxa_impedance_matcher.Hex.Options.{option, appended, find_option_lem, appended_iff}

-- At `p` stands an address with the digits `ds`, such as "0x8000", and the delimiter `t` behind it.
pub record IsAddress (v : View) (p : ℕ) (ds : List ℕ) (t : ℕ) : Type 0 where
  pub pre : List ℕ
  pub text : Stores v p ((pre ++ b'x' ∷ ds) ++ t ∷ [])
  pub plain : All IsPlain pre
  pub hex : All IsHex ds
  pub delimiter : IsDelimiter t
  pub short : length ds ≤ 8

-- The option stands behind `junk`, and nowhere before.
pub record HasOption (v : View) (str : ℕ) (junk : List ℕ) : Type 0 where
  pub before : Stores v str junk
  pub no_end : All (λ x. 0 < x) junk
  pub first : (i : ℕ) → i < length junk → ¬ Stores v (str + i) option
  pub there : Stores v (str + length junk) option

-- Where the text of an address ends.
abbrev pub end_of : {v : View} {p t : ℕ} {ds : List ℕ} → IsAddress v p ds t → ℕ
end_of {p} {ds} a = p + length a.pre + 1 + length ds

-- Fuel that suffices to read it.
abbrev pub Fits : {v : View} {p t : ℕ} {ds : List ℕ} → IsAddress v p ds t → ℕ → Type 0
Fits {ds} a f = length a.pre + length ds + 1 < f

gethexaddr-IsAddress :
    {v : View} {p t : ℕ} {ds : List ℕ} (f : ℕ) (a : IsAddress v p ds t)
    → Fits a f
    → gethexaddr f v p ≡ done (record { addr = hex_value ds; end = some (end_of a) })
gethexaddr-IsAddress {v} {p} {t} {ds} f a enough =
    gethexaddr_lem f v p a.pre ds t a.text a.plain a.hex a.delimiter a.short enough

-- The delimiter itself.
at_end : {v : View} {p t : ℕ} {ds : List ℕ} (a : IsAddress v p ds t) → v (end_of a) ≡ t
at_end {v} {p} {ds} a =
    let e : p + length (a.pre ++ b'x' ∷ ds) ≡ end_of a =
      omega (arith, length-append a.pre (b'x' ∷ ds)) in
    rw (← e) (Stores-append v p (a.pre ++ b'x' ∷ ds) _ a.text).1.0

scan_end-Holds :
    (f : ℕ) (v : View) (p : ℕ) (xs : List ℕ)
    → Holds v p xs
    → All (λ x. is_delimiter x ≡ false) xs
    → length xs < f
    → scan_end f v p ≡ done (p + length xs)
unfolding scan_end
scan_end-Holds zero v p xs h plain fuel = absurd (omega arith)
scan_end-Holds (suc f) v p [] h plain fuel = rw h (ap done (omega arith))
scan_end-Holds (suc f) v p (x ∷ xs) h plain fuel =
    let e : p + suc (length xs) ≡ p + 1 + length xs = omega arith in
    rw (ne→== (v p) 0 (omega arith), h.0, plain.0, e)
      (scan_end-Holds f v (p + 1) xs h.2 plain.1 (omega arith))

-- gethexaddr returns NULL for a text within the fuel that has no delimiter before its end,
-- whatever digits it has, and does not set *end.
pub gethexaddr-unterminated :
    (f : ℕ) (v : View) (p : ℕ) (xs : List ℕ)
    → Holds v p xs
    → All (λ x. is_delimiter x ≡ false) xs
    → length xs < f
    → gethexaddr f v p ≡ done (record { addr = 0; end = none })
unfolding gethexaddr
gethexaddr-unterminated f v p xs h plain fuel =
    rw (scan_end-Holds f v p xs h plain fuel, Holds-end v p xs h)

module _ {v : View} (bytes : IsBytes v) {str : ℕ} {junk : List ℕ} (o : HasOption v str junk) where
  abbrev operand : ℕ
  operand = str + length junk + 10

  getaddrs-found :
      (f k d : ℕ)
      → length junk < f
      → getaddrs f v str k d ≡ kernel_addr f v operand >>= λ (k', end). after_kernel f v k' end d
  unfolding getaddrs
  getaddrs-found f k d fuel = rw (
    find_option_lem bytes f str junk o.before o.no_end o.first o.there fuel,
    ne→== (v (str + length junk)) 0 (let (e, _) = o.there in omega arith),
  )

  not_appended :
      ¬ Stores v operand appended → is_zero (strncmp v operand (lit (codes "appended")) 0 8) ≡ false
  not_appended named = elim (Bool-cases (is_zero (strncmp v operand (lit appended) 0 8))) [
    | inl hit ↦ absurd (named ((appended_iff bytes operand).0 hit))
    | inr miss ↦ miss
  ]

  -- On a command line that names the option with the addresses of both, each a hexadecimal number
  -- of at most eight digits behind an 'x', the kernel's followed by a comma and the tree's by a
  -- delimiter, getaddrs returns 0 and sets both pointers to the numbers that the digits write.
  pub getaddrs-both :
      {ks ds : List ℕ} {t : ℕ} (f k d : ℕ) (kernel : IsAddress v operand ks b',')
      (dtb : IsAddress v (end_of kernel + 1) ds t)
      → ¬ Stores v operand appended
      → length junk < f
      → Fits kernel f
      → Fits dtb f
      → getaddrs f v str k d ≡ done (record { ret = pos 0; k = hex_value ks; d = hex_value ds })
  unfolding kernel_addr after_kernel
  getaddrs-both f k d kernel dtb named fuel fits_k fits_d = rw (
    getaddrs-found f k d fuel,
    not_appended named,
    gethexaddr-IsAddress f kernel fits_k,
    eq→== (v (end_of kernel)) b',' (at_end kernel),
    gethexaddr-IsAddress f dtb fits_d,
  )

  -- On a command line that names the option with "appended," in place of the kernel's address, and
  -- then a tree's address with a delimiter behind it, getaddrs returns 0, sets the kernel's
  -- pointer to NULL and the other to the number that the digits write.
  pub getaddrs-appended :
      {ds : List ℕ} {t : ℕ} (f k d : ℕ)
      → Stores v operand (appended ++ b',' ∷ [])
      → (dtb : IsAddress v (operand + 8 + 1) ds t) → length junk < f
      → Fits dtb f
      → getaddrs f v str k d ≡ done (record { ret = pos 0; k = 0; d = hex_value ds })
  unfolding kernel_addr after_kernel
  getaddrs-appended f k d text dtb fuel fits_d =
      let (front, comma) = Stores-append v operand appended (b',' ∷ []) text in
      rw (
        getaddrs-found f k d fuel,
        (appended_iff bytes operand).1 front,
        eq→== (v (operand + 8)) b',' comma.0,
        gethexaddr-IsAddress f dtb fits_d,
      )

  -- On a command line that names the option with a kernel's address and a comma, and then ends
  -- without another delimiter, getaddrs returns 0, yet sets the tree's pointer to NULL, whatever
  -- address ends the line.
  pub getaddrs-last :
      {ks : List ℕ} (f k d : ℕ) (kernel : IsAddress v operand ks b',') (xs : List ℕ)
      → Holds v (end_of kernel + 1) xs
      → All (λ x. is_delimiter x ≡ false) xs
      → ¬ Stores v operand appended
      → length junk < f
      → Fits kernel f
      → length xs < f
      → getaddrs f v str k d ≡ done (record { ret = pos 0; k = hex_value ks; d = 0 })
  unfolding kernel_addr after_kernel
  getaddrs-last f k d kernel xs h plain named fuel fits_k short = rw (
    getaddrs-found f k d fuel,
    not_appended named,
    gethexaddr-IsAddress f kernel fits_k,
    eq→== (v (end_of kernel)) b',' (at_end kernel),
    gethexaddr-unterminated f v (end_of kernel + 1) xs h plain short,
  )

  -- With a kernel's address that ends the command line, getaddrs reads its variable end unset.
  pub getaddrs-unset :
      (f k d : ℕ) (xs : List ℕ)
      → Holds v operand xs
      → All (λ x. is_delimiter x ≡ false) xs
      → ¬ Stores v operand appended
      → length junk < f
      → length xs < f
      → getaddrs f v str k d ≡ fault
  unfolding kernel_addr after_kernel
  getaddrs-unset f k d xs h plain named fuel short = rw (
    getaddrs-found f k d fuel,
    not_appended named,
    gethexaddr-unterminated f v operand xs h plain short,
  )
