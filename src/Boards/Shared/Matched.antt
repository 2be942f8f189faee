-- ===== src/Boards/Shared/Matched.antt =====
-- How match_board ends once the board is known.
use pxa_impedance_matcher.Base.{
  ℕ, ◌<◌, ◌≡◌, ◌≢◌, Option, some, List, [], ◌∷◌, ◌++◌, append_assoc, arith, ne→==, codes, length,
  All, View, lit, lit-Holds, Holds, IsBytes, IsChars,
}
use pxa_impedance_matcher.Machine.{Machine, Run, Cmd, ◌>>◌}
use pxa_impedance_matcher.Machine.Prints.{
  Prints, Gives, Stops, Gives-pure, Gives-seq, Stops-seq, Gives-from, Stops-from, Prints-Stops,
  Prints-Gives,
}
use pxa_impedance_matcher.Print.{putstr}
use pxa_impedance_matcher.Print.Output.{echo_all, putstr-Prints}
use pxa_impedance_matcher.Dtbs.{Dtb}
use pxa_impedance_matcher.Dtbs.FindDtb.{
  Chain, Fits, Names, FirstNaming, nowhere, found, find_dtb-FirstNaming,
}
use pxa_impedance_matcher.Boards.Shared.{Fixup, Board, Platform, say, search_dtb, finish_match}

pub IsChars-pos : (xs : List ℕ) → IsChars xs → All (λ x. 0 < x) xs
IsChars-pos [] h = tt
IsChars-pos (x ∷ xs) h = ((h.0).0, IsChars-pos xs h.1)

pub IsChars-lt : (xs : List ℕ) → IsChars xs → All (λ x. x < 256) xs
IsChars-lt [] h = tt
IsChars-lt (x ∷ xs) h = ((h.0).1, IsChars-lt xs h.1)

-- The trees that are appended to the loader, none of them at NULL, and fuel for the search.
pub record HasTrees (p : Platform) (ram : View) (compat : List ℕ) (bs : List Dtb) : Type 0 where
  pub bytes : IsBytes ram
  pub chain : Chain ram p.dtbs_start bs
  pub fit : All (Fits compat) bs
  pub not_null : All (λ b. b.addr ≢ 0) bs
  pub chars : IsChars compat
  pub fuel_text : length compat < p.fuel
  pub fuel_trees : length bs < p.fuel

-- The board that is handed to main.
abbrev pub board_of : Platform → List ℕ → Option Fixup → Dtb → Board
board_of p compat fixup d = record {
  dtb = d.addr;
  dtb_size = d.size;
  kernel = p.zimage_start;
  compatible = some compat;
  fixup_dtb = fixup;
}

-- The message that a tree is missing, and what follows it.
abbrev pub missing_text : Platform → List ℕ → List ℕ → List ℕ
missing_text p compat post =
    echo_all p.serial (codes "NO DTB BLOB FOUND FOR ")
    ++ (echo_all p.serial compat ++ (echo_all p.serial (codes "\n") ++ post))

-- A board with the first tree that names it, `pre` being printed; or, if no tree names it, a message
-- and what `on_missing` prints, and no return.
pub data Matched (p : Platform) (ram : View) (compat : List ℕ) (fixup : Option Fixup)
    (bs : List Dtb) (pre post : List ℕ) (m : Machine) (r : Run Board) : Type 0 where
  matched :
      (before after : List Dtb) (d : Dtb)
      → bs ≡ before ++ d ∷ after
      → All (λ b. ¬ Names ram compat b) before
      → Names ram compat d
      → Gives p.serial.wire pre (board_of p compat fixup d) m r
      → Matched p ram compat fixup bs pre post m r
  missing :
      All (λ b. ¬ Names ram compat b) bs
      → Stops p.serial.wire (pre ++ missing_text p compat post) m r
      → Matched p ram compat fixup bs pre post m r

pub say-Prints :
    (p : Platform) (xs : List ℕ)
    → IsChars xs
    → length xs < p.fuel
    → (m : Machine) → Prints p.serial.wire (echo_all p.serial xs) m (say p xs m)
unfolding say
say-Prints p xs chars fuel m =
    putstr-Prints p.serial p.fuel (lit xs) 0 xs (lit-Holds xs (IsChars-pos xs chars))
      (IsChars-lt xs chars) fuel m

-- A literal, and then a step that returns.
pub say_then :
    {A : Type 0} {ys : List ℕ} {a : A} {m : Machine} (p : Platform) (xs : List ℕ) (k : Cmd A)
    → IsChars xs
    → length xs < p.fuel
    → ((m' : Machine) → m'.ram ≡ m.ram → Gives p.serial.wire ys a m' (k m'))
    → Gives p.serial.wire (echo_all p.serial xs ++ ys) a m ((say p xs >> k) m)
say_then {m} p xs k chars fuel next = Prints-Gives (say p xs) k (say-Prints p xs chars fuel m) next

-- A string in the RAM is within the fuel.
abbrev pub IsLine : ℕ → View → ℕ → List ℕ → Type 0
IsLine f ram a xs = Holds ram a xs × All (λ c. c < 256) xs × (length xs < f)

-- Such a string, and then a step that returns.
pub putstr_then :
    {A : Type 0} {ys : List ℕ} {a : A} {m : Machine} (p : Platform) (v : View) (at : ℕ)
    (xs : List ℕ) (k : Cmd A)
    → IsLine p.fuel v at xs
    → ((m' : Machine) → m'.ram ≡ m.ram → Gives p.serial.wire ys a m' (k m'))
    → Gives p.serial.wire (echo_all p.serial xs ++ ys) a m ((putstr p.serial p.fuel v at >> k) m)
putstr_then {m} p v at xs k (text, small, short) next =
    Prints-Gives (putstr p.serial p.fuel v at) k
      (putstr-Prints p.serial p.fuel v at xs text small short m) next

member_not_null :
    (before after : List Dtb) (d : Dtb) → All (λ b. b.addr ≢ 0) (before ++ d ∷ after) → d.addr ≢ 0
member_not_null [] after d h = h.0
member_not_null (b ∷ before) after d h = member_not_null before after d h.1

module _ (p : Platform) (compat : List ℕ) (fixup : Option Fixup) (bs : List Dtb) where
  pub search_dtb-FirstNaming :
      (ram : View)
      → HasTrees p ram compat bs
      → (d : Dtb) × ((m : Machine) → m.ram ≡ ram → search_dtb p compat m ≡ Run.ok d m)
        × FirstNaming ram compat bs d
  unfolding search_dtb
  search_dtb-FirstNaming ram trees =
      let (d, e, first) =
        find_dtb-FirstNaming ram trees.bytes (lit compat) 0 compat
          (lit-Holds compat (IsChars-pos compat trees.chars)) trees.chars p.fuel trees.fuel_text
          p.fuel p.dtbs_start bs trees.chain trees.fit trees.fuel_trees in
      (d, (λ m same. rw (same, e)), first)

  missing-Stops :
      (on_missing : Cmd Board) (post : List ℕ)
      → ((m : Machine) → Stops p.serial.wire post m (on_missing m))
      → 22 < p.fuel
      → IsChars compat
      → length compat < p.fuel
      → (m : Machine)
      → Stops p.serial.wire (missing_text p compat post) m (
          (do say p (codes "NO DTB BLOB FOUND FOR "); say p compat; say p (codes "\n"); on_missing)
            m)
  missing-Stops on_missing post stops fuel chars fuel_text m =
      Prints-Stops (say p (codes "NO DTB BLOB FOUND FOR ")) _
        (say-Prints p (codes "NO DTB BLOB FOUND FOR ") (omega arith) (omega arith) m)
        λ m1 _. Prints-Stops (say p compat) _ (say-Prints p compat chars fuel_text m1) λ m2 _.
          Prints-Stops (say p (codes "\n")) on_missing
            (say-Prints p (codes "\n") (omega arith) (omega arith) m2) λ m3 _. stops m3

  pub finish_match-Matched :
      (on_missing : Cmd Board) (post : List ℕ)
      → ((m : Machine) → Stops p.serial.wire post m (on_missing m))
      → 22 < p.fuel
      → (ram : View) (m : Machine) → m.ram ≡ ram
      → HasTrees p ram compat bs
      → Matched p ram compat fixup bs [] post m (finish_match p compat fixup on_missing m)
  unfolding finish_match
  finish_match-Matched on_missing post stops fuel ram m same trees =
      let (d, e, first) = search_dtb-FirstNaming ram trees in
      elim first [
        | nowhere null none_there ↦ missing none_there (
            rw (e m same, null)
              (missing-Stops on_missing post stops fuel trees.chars trees.fuel_text m))
        | found before after split others there ↦ matched before after d split others there (
            rw
              (
                e m same,
                ne→== d.addr 0 (member_not_null before after d (rw split at trees.not_null)),
              )
              (Gives-pure _ m))
      ]

  -- What is printed before.
  pub Matched-after :
      {ram : View} {xs pre post : List ℕ} {m : Machine} (c : Cmd (Unit {0})) (k : Cmd Board)
      (first : Prints p.serial.wire xs m (c m))
      → Matched p ram compat fixup bs pre post first.after (k first.after)
      → Matched p ram compat fixup bs (xs ++ pre) post m ((c >> k) m)
  Matched-after c k first (matched before after d split others there gives) =
      matched before after d split others there (Gives-seq c k first gives)
  Matched-after {xs} {pre} {post} c k first (missing none_there stops) =
      missing none_there
        (rw (append_assoc xs pre (missing_text p compat post)) (Stops-seq c k first stops))

  pub Matched-from :
      {ram : View} {pre post : List ℕ} {m m' : Machine} {r : Run Board}
      → p.serial.wire m'.history ≡ p.serial.wire m.history
      → m'.ram ≡ m.ram
      → Matched p ram compat fixup bs pre post m' r
      → Matched p ram compat fixup bs pre post m r
  Matched-from e same (matched before after d split others there gives) =
      matched before after d split others there (Gives-from e same gives)
  Matched-from e same (missing none_there stops) = missing none_there (Stops-from e same stops)
