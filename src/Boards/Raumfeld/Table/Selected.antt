-- ===== src/Boards/Raumfeld/Table/Selected.antt =====
-- The two searches in the table of board-raumfeld.c, against the entries that match.
use mathlib.Core.Bool.{false≢true}
use pxa_impedance_matcher.Base.{
  ℕ, suc, ◌+◌, ◌/◌, ◌^◌, ◌<◌, ◌≡◌, refl, sym, ap, ap₂, ◌∙◌, ◌↔◌, inl, inr, true, ◌&&◌, Option, none,
  some, List, [], ◌∷◌, ◌++◌, arith, ◌==◌, Bool-cases, pos→==, length, take, All, done, View, shr,
  lit, Holds, lit-Holds, IsChars,
}
use pxa_impedance_matcher.Base.Int.{is_zero}
use pxa_impedance_matcher.Str.{strncmp}
use pxa_impedance_matcher.Str.Length.{strlen_lem}
use pxa_impedance_matcher.Str.Compare.{strncmp-lex}
use pxa_impedance_matcher.Hex.Options.{is_zero→eq}
use pxa_impedance_matcher.Boards.Shared.Matched.{IsChars-pos, IsChars-lt}
use pxa_impedance_matcher.Boards.Raumfeld.Table.{
  RaumfeldBoard, rboards, find_machid, find_compatible,
}

-- The first of the entries that matches, or what stands behind them if none does.
pub data Selected (Match : RaumfeldBoard → Type 0) (es : List RaumfeldBoard)
    (sentinel b : RaumfeldBoard) : Type 0 where
  chosen :
      (before after : List RaumfeldBoard)
      → es ≡ before ++ b ∷ after
      → All (λ e. ¬ Match e) before
      → Match b
      → Selected Match es sentinel b
  no_match : b ≡ sentinel → All (λ e. ¬ Match e) es → Selected Match es sentinel b

module _ (Match : RaumfeldBoard → Type 0) (e : RaumfeldBoard) (es : List RaumfeldBoard) where
  Selected-here : (sentinel : RaumfeldBoard) → Match e → Selected Match (e ∷ es) sentinel e
  Selected-here sentinel m = chosen [] es refl tt m

  Selected-later :
      (sentinel b : RaumfeldBoard)
      → ¬ Match e
      → Selected Match es sentinel b
      → Selected Match (e ∷ es) sentinel b
  Selected-later sentinel b miss (chosen before after split others m) =
      chosen (e ∷ before) after (ap (λ l. e ∷ l) split) (miss, others) m
  Selected-later sentinel b miss (no_match at_end others) = no_match at_end (miss, others)

-- The identifier and the upper part of the revision agree.
abbrev pub IsMachine : ℕ → ℕ → RaumfeldBoard → Type 0
IsMachine machid system_rev b = (b.machid ≡ machid) × (b.system_rev_upper ≡ system_rev / 2 ^ 8)

module _ (machid system_rev : ℕ) where
  find_machid-Selected :
      (es : List RaumfeldBoard) (sentinel : RaumfeldBoard)
      → All (λ e. 0 < e.machid) es
      → sentinel.machid ≡ 0
      → (b : RaumfeldBoard) × (find_machid (es ++ sentinel ∷ []) machid system_rev ≡ some b)
        × Selected (IsMachine machid system_rev) es sentinel b
  unfolding find_machid
  find_machid-Selected [] sentinel real zero' = (sentinel, rw zero', no_match refl tt)
  find_machid-Selected (e ∷ es) sentinel real zero' =
      let (b, found, selected) = find_machid-Selected es sentinel real.1 zero' in
      elim (Bool-cases (e.machid == machid && e.system_rev_upper == shr system_rev 8)) [
        | inl hit ↦ (
          e,
          rw (pos→== e.machid real.0, hit),
          Selected-here (IsMachine machid system_rev) e es sentinel (ground arith),
        )
        | inr miss ↦ (
          b,
          rw (pos→== e.machid real.0, miss) found,
          Selected-later (IsMachine machid system_rev) e es sentinel b (λ m. ground arith) selected,
        )
      ]

-- The entries without the sentinel, and the sentinel.
abbrev entries_of : List RaumfeldBoard → List RaumfeldBoard
entries_of [] = []
entries_of (b ∷ []) = []
entries_of (b ∷ c ∷ bs) = b ∷ entries_of (c ∷ bs)

unfoldable pub entries : List RaumfeldBoard
unfolding rboards
entries = entries_of rboards

abbrev pub sentinel : RaumfeldBoard
sentinel = record { machid = 0; system_rev_upper = 0; compatible = none; fixup_dtb = none }

entries_lem : rboards ≡ entries ++ sentinel ∷ []
unfolding entries
entries_lem = refl

-- The search by machine and revision returns the first entry of the Raumfeld table whose
-- identifier is the machine's and whose upper revision is the revision without its low byte, or
-- the sentinel if there is none.
pub find_machid-rboards :
    (machid system_rev : ℕ)
    → (b : RaumfeldBoard) × (find_machid rboards machid system_rev ≡ some b)
      × Selected (IsMachine machid system_rev) entries sentinel b
unfolding entries
find_machid-rboards machid system_rev =
    find_machid-Selected machid system_rev entries sentinel (omega arith) refl

take-exact : (xs ys : List ℕ) → take (suc (length xs)) xs ≡ take (suc (length xs)) ys → xs ≡ ys
take-exact [] [] e = refl
take-exact [] (y ∷ ys) e = cc
take-exact (x ∷ xs) [] e = cc
take-exact (x ∷ xs) (y ∷ ys) e =
    let (head, tail) = cons_eq x y _ _ e in ap₂ ◌∷◌ head (take-exact xs ys tail)
  where
    cons_eq : (a b : ℕ) (us vs : List ℕ) → a ∷ us ≡ b ∷ vs → (a ≡ b) × (us ≡ vs)
    cons_eq a b us vs h = (cc, cc)

-- The string of an entry, and fuel for its length.
abbrev pub IsNamed : ℕ → Option (List ℕ) → Type 0
IsNamed f none = ⊥
IsNamed f (some compat) = IsChars compat × (length compat < f)

abbrev pub HasName : List ℕ → RaumfeldBoard → Type 0
HasName ys b = b.compatible ≡ some ys

some_eq : (xs ys : List ℕ) → some xs ≡ some ys → xs ≡ ys
some_eq xs ys h = cc

module _ (f : ℕ) (ram : View) (val : ℕ) (ys : List ℕ) (text : Holds ram val ys)
    (chars : IsChars ys) where
  -- With the NUL compared, only the same string is equal.
  same_iff :
      (xs : List ℕ)
      → IsChars xs
      → (is_zero (strncmp (lit xs) 0 ram val (length xs + 1)) ≡ true) ↔ (xs ≡ ys)
  same_iff xs xs_chars =
      let e : length xs + 1 ≡ suc (length xs) = omega arith in
      let (_, iff) =
        strncmp-lex (suc (length xs)) (lit xs) 0 ram val xs ys
          (lit-Holds xs (IsChars-pos xs xs_chars)) text (IsChars-lt xs xs_chars)
          (IsChars-lt ys chars) in
      rw e (
        λ z. take-exact xs ys (iff.0 (is_zero→eq _ z)),
        λ same. rw (iff.1 (ap (take (suc (length xs))) same)),
      )

  find_compatible-Selected :
      (es : List RaumfeldBoard) (sentinel : RaumfeldBoard)
      → All (λ e. IsNamed f e.compatible) es
      → sentinel.compatible ≡ none
      → (b : RaumfeldBoard) × (find_compatible f (es ++ sentinel ∷ []) ram val ≡ done b)
        × Selected (HasName ys) es sentinel b
  unfolding find_compatible
  find_compatible-Selected [] last named e = (last, simp e, no_match refl tt)
  find_compatible-Selected (e ∷ es) sentinel named last =
      by_name e.compatible refl named.0 (find_compatible-Selected es sentinel named.1 last)
    where
      Later : Type 0
      Later =
          (b : RaumfeldBoard) × (find_compatible f (es ++ sentinel ∷ []) ram val ≡ done b)
          × Selected (HasName ys) es sentinel b

      by_name :
          (name : Option (List ℕ))
          → e.compatible ≡ name
          → IsNamed f name
          → Later
          → (b : RaumfeldBoard) × (find_compatible f (e ∷ (es ++ sentinel ∷ [])) ram val ≡ done b)
            × Selected (HasName ys) (e ∷ es) sentinel b
      by_name none is n later = absurd n
      by_name (some xs) is n (b, found, selected) =
          let iff = same_iff xs n.0 in
          let size = strlen_lem f (lit xs) 0 xs (lit-Holds xs (IsChars-pos xs n.0)) n.1 in
          elim (Bool-cases (is_zero (strncmp (lit xs) 0 ram val (length xs + 1)))) [
            | inl hit ↦ (
              e,
              simp is (rw (size, hit)),
              Selected-here (HasName ys) e es sentinel (is ∙ ap some (iff.0 hit)),
            )
            | inr miss ↦ (
              b,
              simp is (rw (size, miss) found),
              Selected-later (HasName ys) e es sentinel b
                  (λ h. false≢true (sym miss ∙ iff.1 (some_eq xs ys (sym is ∙ h)))) selected,
            )
          ]

  -- With fuel for the longest name, the search by name returns the first entry of the Raumfeld
  -- table whose name is the string at the address, all of it, or the sentinel if there is none.
  pub find_compatible-rboards :
      40 < f
      → (b : RaumfeldBoard) × (find_compatible f rboards ram val ≡ done b)
        × Selected (HasName ys) entries sentinel b
  unfolding entries
  find_compatible-rboards fuel = find_compatible-Selected entries sentinel (omega arith) refl
