-- ===== src/Hex/Options.antt =====
-- getaddrs of string.c: the option "loadaddrs=KERNEL,DTB" on a command line.
use pxa_impedance_matcher.Base.{
  ℕ, zero, suc, ◌+◌, ◌<◌, ◌≡◌, refl, ap, ◌↔◌, inl, inr, Bool, true, false, ◌&&◌, List, [], ◌∷◌,
  arith, ◌==◌, Bool-cases, ne→==, codes, length, All, done, View, lit, Holds, Stores, Holds-end,
  lit-Holds, IsBytes, IsChars,
}
use pxa_impedance_matcher.Base.Int.{ℤ, pos, negsuc, is_zero}
use pxa_impedance_matcher.Str.{strncmp}
use pxa_impedance_matcher.Str.Compare.{strncmp-Stores}
use pxa_impedance_matcher.Hex.{find_option, getaddrs}

abbrev pub option : List ℕ
option = codes "loadaddrs="

abbrev pub appended : List ℕ
appended = codes "appended"

abbrev option_hit : View → ℕ → Bool
option_hit v s = v s == b'l' && is_zero (strncmp v s (lit (codes "loadaddrs=")) 0 10)

pub is_zero→eq : (z : ℤ) → is_zero z ≡ true → z ≡ pos 0
is_zero→eq (pos zero) h = refl
is_zero→eq (pos (suc n)) h = cc
is_zero→eq (negsuc n) h = cc

module _ {v : View} (bytes : IsBytes v) where
  literal_iff :
      (s : ℕ) (ys : List ℕ)
      → IsChars ys
      → All (λ y. 0 < y) ys
      → (is_zero (strncmp v s (lit ys) 0 (length ys)) ≡ true) ↔ Stores v s ys
  literal_iff s ys chars positive =
      let iff = strncmp-Stores bytes (lit ys) s 0 ys (lit-Holds ys positive) chars in
      (λ z. iff.0 (is_zero→eq _ z), λ h. rw (iff.1 h))

  pub appended_iff :
      (s : ℕ) → (is_zero (strncmp v s (lit appended) 0 8) ≡ true) ↔ Stores v s appended
  appended_iff s = literal_iff s appended (omega arith) (omega arith)

  option_iff : (s : ℕ) → (option_hit v s ≡ true) ↔ Stores v s option
  option_iff s =
      let iff = literal_iff s option (omega arith) (omega arith) in
      (λ z. iff.0 (ground arith), λ h. rw (h.0, iff.1 h))

  -- The option stands behind `junk`, and nowhere before.
  pub find_option_lem :
      (f s : ℕ) (junk : List ℕ)
      → Stores v s junk
      → All (λ x. 0 < x) junk
      → ((i : ℕ) → i < length junk → ¬ Stores v (s + i) option)
      → Stores v (s + length junk) option
      → length junk < f
      → find_option f v s ≡ done (s + length junk)
  unfolding find_option
  find_option_lem zero s junk h positive first there fuel = absurd (omega arith)
  find_option_lem (suc f) s [] h positive first there fuel =
      let e : s + 0 ≡ s = omega arith in
      let at_s : Stores v s option = rw e at there in
      rw (ne→== (v s) 0 (omega arith), (option_iff s).1 at_s) (ap done (omega arith))
  find_option_lem (suc f) s (x ∷ xs) h positive first there fuel =
      let e : s + suc (length xs) ≡ s + 1 + length xs = omega arith in
      rw (ne→== (v s) 0 (omega arith), miss, e)
        (find_option_lem f (s + 1) xs h.1 positive.1 later (rw e at there) (omega arith))
    where
      later : (i : ℕ) → i < length xs → ¬ Stores v (s + 1 + i) option
      later i lt = let e : s + 1 + i ≡ s + suc i = omega arith in rw e (first (suc i) (omega arith))

      here : ¬ Stores v s option
      here = let e : s + 0 ≡ s = omega arith in rw e at (first 0 (omega arith))

      miss : option_hit v s ≡ false
      miss = elim (Bool-cases (option_hit v s)) [
        | inl hit ↦ absurd (here ((option_iff s).0 hit))
        | inr no_hit ↦ no_hit
      ]

  find_option-absent :
      (f s : ℕ) (xs : List ℕ)
      → Holds v s xs
      → ((i : ℕ) → i < length xs → ¬ Stores v (s + i) option)
      → length xs < f
      → find_option f v s ≡ done (s + length xs)
  unfolding find_option
  find_option-absent zero s xs h none_there fuel = absurd (omega arith)
  find_option-absent (suc f) s [] h none_there fuel = rw h (ap done (omega arith))
  find_option-absent (suc f) s (x ∷ xs) h none_there fuel =
      let e : s + suc (length xs) ≡ s + 1 + length xs = omega arith in
      rw (ne→== (v s) 0 (omega arith), miss, e)
        (find_option-absent f (s + 1) xs h.2 later (omega arith))
    where
      later : (i : ℕ) → i < length xs → ¬ Stores v (s + 1 + i) option
      later i lt =
          let e : s + 1 + i ≡ s + suc i = omega arith in rw e (none_there (suc i) (omega arith))

      here : ¬ Stores v s option
      here = let e : s + 0 ≡ s = omega arith in rw e at (none_there 0 (omega arith))

      miss : option_hit v s ≡ false
      miss = elim (Bool-cases (option_hit v s)) [
        | inl hit ↦ absurd (here ((option_iff s).0 hit))
        | inr no_hit ↦ no_hit
      ]

  -- On a command line within the fuel that does not name the option, getaddrs returns -1 and
  -- changes neither pointer.
  pub getaddrs-absent :
      (f str k d : ℕ) (xs : List ℕ)
      → Holds v str xs
      → ((i : ℕ) → i < length xs → ¬ Stores v (str + i) option)
      → length xs < f
      → getaddrs f v str k d ≡ done (record { ret = negsuc 0; k = k; d = d })
  unfolding getaddrs
  getaddrs-absent f str k d xs h none_there fuel =
      rw (find_option-absent f str xs h none_there fuel, Holds-end v str xs h)
