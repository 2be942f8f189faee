-- ===== src/Atags/Encoded.antt =====
-- A list of tags as a boot loader lays it out in the RAM, and what the walk of atags.h reads of it.
use pxa_impedance_matcher.Base.{
  ℕ, zero, suc, ◌+◌, ◌-◌, ◌*◌, ◌^◌, ◌<◌, ◌≤◌, ◌≡◌, refl, ap, ap₂, ◌∙◌, List, [], ◌∷◌, ◌++◌,
  append_assoc, append-nil, sym, arith, length, length-append, View, u32,
}
use pxa_impedance_matcher.Endian.{load32}
use pxa_impedance_matcher.Machine.{Machine, ok, Cmd, pure, ◌>>=◌, get_ram}
use pxa_impedance_matcher.Atags.{tag_size, tag_kind, tag_body, tag_next, for_each_tag}
use pxa_impedance_matcher.Atags.Walk.{Tags, end, next, run_all, KeepsRam, for_each_tag-run_all}

-- A tag: its kind and the words of its body.
pub record Tag : Type 0 where
  pub kind : ℕ
  pub body : List ℕ

abbrev tag : ℕ → List ℕ → Tag
tag k b = record { kind = k; body = b }

-- The words of a list of tags: each with its size in words before it, and one of size 0 at the end.
abbrev pub encode : List Tag → List ℕ
encode [] = 0 ∷ 0 ∷ []
encode (t ∷ ts) = (length t.body + 2) ∷ t.kind ∷ (t.body ++ encode ts)

-- The words stand in the RAM from `a` on.
abbrev pub WordsAt : View → ℕ → List ℕ → Type 0
WordsAt ram a [] = Unit {0}
WordsAt ram a (w ∷ ws) = (load32 ram a ≡ w) × WordsAt ram (a + 4) ws

-- Where the tags stand.
abbrev pub addresses : ℕ → List Tag → List ℕ
addresses a [] = []
addresses a (t ∷ ts) = a ∷ addresses (a + 4 * (length t.body + 2)) ts

abbrev pub words : View → ℕ → ℕ → List ℕ
words ram a zero = []
words ram a (suc n) = load32 ram a ∷ words ram (a + 4) n

-- The tag at an address.
abbrev pub read : View → ℕ → Tag
read ram a = record { kind = tag_kind ram a; body = words ram (tag_body a) (tag_size ram a - 2) }

-- A body of the walk that keeps every tag.
abbrev pub collect : ℕ → List Tag → Cmd (List Tag)
collect a seen = do ram ← get_ram; pure (seen ++ read ram a ∷ [])

module _ (ram : View) where
  words-WordsAt : (a : ℕ) (xs ys : List ℕ) → WordsAt ram a (xs ++ ys) → words ram a (length xs) ≡ xs
  words-WordsAt a [] ys h = refl
  words-WordsAt a (x ∷ xs) ys h = ap₂ ◌∷◌ h.0 (words-WordsAt (a + 4) xs ys h.1)

  rest-WordsAt :
      (a : ℕ) (xs ys : List ℕ) → WordsAt ram a (xs ++ ys) → WordsAt ram (a + 4 * length xs) ys
  rest-WordsAt a [] ys h = rw (zero_words a) h
    where
      zero_words : (b : ℕ) → b + 4 * 0 ≡ b
      zero_words b = omega arith
  rest-WordsAt a (x ∷ xs) ys h = rw (one_more (length xs)) (rest-WordsAt (a + 4) xs ys h.1)
    where
      one_more : (n : ℕ) → a + 4 * suc n ≡ a + 4 + 4 * n
      one_more n = omega arith

  -- Behind the header.
  body-WordsAt :
      (a : ℕ) (t : Tag) (ts : List Tag)
      → WordsAt ram a (encode (t ∷ ts))
      → WordsAt ram (a + 8) (t.body ++ encode ts)
  body-WordsAt a t ts h = rw (header a) ((h.1).1)
    where
      header : (b : ℕ) → b + 8 ≡ b + 4 + 4
      header b = omega arith

  read_lem : (a : ℕ) (t : Tag) (ts : List Tag) → WordsAt ram a (encode (t ∷ ts)) → read ram a ≡ t
  read_lem a t ts h =
      let n : tag_size ram a - 2 ≡ length t.body = omega (arith, h.0) in
      ap₂ (λ (k : ℕ) (b : List ℕ). tag k b) ((h.1).0)
        (ap (words ram (a + 8)) n
          ∙ words-WordsAt (a + 8) t.body (encode ts) (body-WordsAt a t ts h))

  -- The rest of the list.
  pub next-WordsAt :
      (a : ℕ) (t : Tag) (ts : List Tag)
      → WordsAt ram a (encode (t ∷ ts))
      → WordsAt ram (a + 4 * (length t.body + 2)) (encode ts)
  next-WordsAt a t ts h =
      rw (behind (length t.body)) (rest-WordsAt (a + 8) t.body (encode ts) (body-WordsAt a t ts h))
    where
      behind : (n : ℕ) → a + 4 * (n + 2) ≡ a + 8 + 4 * n
      behind n = omega arith

  pub encode_fits :
      (a : ℕ) (t : Tag) (ts : List Tag)
      → a + 4 * length (encode (t ∷ ts)) ≤ 2 ^ 32
      → (a + 4 * (length t.body + 2) + 4 * length (encode ts) ≤ 2 ^ 32) × (0 < length (encode ts))
  encode_fits a t ts bound = (omega (arith, length-append t.body (encode ts)), encode_pos ts)
    where
      encode_pos : (us : List Tag) → 0 < length (encode us)
      encode_pos [] = omega arith
      encode_pos (u ∷ us) = omega arith

  encode-Tags :
      (a : ℕ) (ts : List Tag)
      → WordsAt ram a (encode ts)
      → a + 4 * length (encode ts) ≤ 2 ^ 32
      → Tags ram a (addresses a ts)
  unfolding tag_next
  encode-Tags a [] h bound = end h.0
  encode-Tags a (t ∷ ts) h bound =
      let (fits, room) = encode_fits a t ts bound in
      let step : tag_next ram a ≡ a + 4 * (length t.body + 2) =
        ap (λ n. u32 (a + 4 * n)) h.0 ∙ omega arith in
      next (λ e. omega (arith, h.0, e))
        (rw step (encode-Tags (a + 4 * (length t.body + 2)) ts (next-WordsAt a t ts h) fits))

-- The list that is collected.
run_all-collect :
    (m : Machine) (a : ℕ) (ts seen : List Tag)
    → WordsAt m.ram a (encode ts)
    → run_all collect (addresses a ts) seen m ≡ ok (seen ++ ts) m
run_all-collect m a [] seen h = ap (λ l. ok l m) (sym (append-nil seen))
run_all-collect m a (t ∷ ts) seen h = rw (read_lem m.ram a t ts h) (
    run_all-collect m (a + 4 * (length t.body + 2)) ts (seen ++ t ∷ [])
      (next-WordsAt m.ram a t ts h)
    ∙ ap (λ l. ok l m) (append_assoc seen (t ∷ []) ts))

collect-KeepsRam : KeepsRam collect
collect-KeepsRam t s m s' m' e = let same : m ≡ m' = cc in ap (λ x. x.ram) (sym same)

length-addresses : (a : ℕ) (ts : List Tag) → length (addresses a ts) ≡ length ts
length-addresses a [] = refl
length-addresses a (t ∷ ts) = ap suc (length-addresses (a + 4 * (length t.body + 2)) ts)

-- Where a list of tags is laid out in the RAM below 2 ^ 32, each with its size in words before its
-- kind and its body, and one of size 0 at the end, the walk returns and reads exactly that list, in
-- order, the RAM unchanged, if the fuel is more than the number of tags.
pub for_each_tag-encode :
    (f : ℕ) (m : Machine) (base : ℕ) (ts : List Tag)
    → WordsAt m.ram base (encode ts)
    → base + 4 * length (encode ts) ≤ 2 ^ 32
    → length ts < f
    → for_each_tag f collect base [] m ≡ ok ts m
for_each_tag-encode f m base ts h bound fuel =
    for_each_tag-run_all collect collect-KeepsRam f m base (addresses base ts) []
      (encode-Tags m.ram base ts h bound) (rw (length-addresses base ts) fuel)
    ∙ run_all-collect m base ts [] h
