-- ===== src/Ram/Copy.antt =====
-- memcpy and memmove of string.c.
use pxa_impedance_matcher.Base.{
  ℕ, zero, suc, ◌+◌, ◌≤◌, ◌<◌, ◌≡◌, refl, ap, ◌∙◌, ◌≢◌, ◌⊎◌, inl, inr, arith, ltb, leb, Bool-cases,
  ltb→lt, leb→le, leb→gt, ltb→ge, View,
}
use pxa_impedance_matcher.Ram.{store, copy_up, copy_down, memcpy, memmove}

-- The `n` bytes from `src` on as they were in `ram`, moved to `dest`; the rest unchanged.
pub record Copied (ram : View) (dest src n : ℕ) (out : View) : Type 0 where
  pub inside : (i : ℕ) → i < n → out (dest + i) ≡ ram (src + i)
  pub outside : (b : ℕ) → (b < dest) ⊎ (dest + n ≤ b) → out b ≡ ram b

pub store_self : (ram : View) (a x b : ℕ) → b ≡ a → store ram a x b ≡ x
unfolding store
store_self ram a x b e = ground arith

store_other : (ram : View) (a x b : ℕ) → b ≢ a → store ram a x b ≡ ram b
unfolding store
store_other ram a x b ne = ground arith

module _ (n : ℕ) (ram : View) (dest src : ℕ) (out : View) where
  -- The byte at `dest` is written first, and the rest copied after it.
  Copied-up :
      (dest ≤ src) ⊎ (src + suc n ≤ dest)
      → Copied (store ram dest (ram src)) (dest + 1) (src + 1) n out
      → Copied ram dest src (suc n) out
  Copied-up apart rest = record { inside = inside; outside = outside }
    where
      inside : (i : ℕ) → i < suc n → out (dest + i) ≡ ram (src + i)
      inside zero lt =
          rest.outside (dest + 0) (omega arith)
          ∙ store_self ram dest (ram src) (dest + 0) (omega arith)
          ∙ ap ram (omega arith)
      inside (suc i) lt =
          ap out (omega arith)
          ∙ rest.inside i (omega arith)
          ∙ store_other ram dest (ram src) (src + 1 + i) (omega arith)
          ∙ ap ram (omega arith)

      outside : (b : ℕ) → (b < dest) ⊎ (dest + suc n ≤ b) → out b ≡ ram b
      outside b o = rest.outside b (omega arith) ∙ store_other ram dest (ram src) b (omega arith)

  -- The last byte is written first.
  Copied-down :
      src ≤ dest
      → Copied (store ram (dest + n) (ram (src + n))) dest src n out
      → Copied ram dest src (suc n) out
  Copied-down le rest = record { inside = inside; outside = outside }
    where
      inside : (i : ℕ) → i < suc n → out (dest + i) ≡ ram (src + i)
      inside i lt = elim (Bool-cases (ltb i n)) [
        | inl below ↦
            rest.inside i (ltb→lt i n below)
            ∙ store_other ram (dest + n) (ram (src + n)) (src + i) (omega (arith, ltb→lt i n below))
        | inr last ↦
            rest.outside (dest + i) (omega (arith, ltb→ge i n last))
            ∙ store_self ram (dest + n) (ram (src + n)) (dest + i) (omega (arith, ltb→ge i n last))
            ∙ ap ram (omega (arith, ltb→ge i n last))
      ]

      outside : (b : ℕ) → (b < dest) ⊎ (dest + suc n ≤ b) → out b ≡ ram b
      outside b o =
          rest.outside b (omega arith) ∙ store_other ram (dest + n) (ram (src + n)) b (omega arith)

copy_up-Copied :
    (n : ℕ) (ram : View) (dest src : ℕ)
    → (dest ≤ src) ⊎ (src + n ≤ dest)
    → Copied ram dest src n (copy_up n ram dest src)
unfolding copy_up
copy_up-Copied zero ram dest src apart = record {
  inside = λ i lt. absurd (omega arith);
  outside = λ b o. refl;
}
copy_up-Copied (suc n) ram dest src apart =
    Copied-up n ram dest src _ apart
      (copy_up-Copied n (store ram dest (ram src)) (dest + 1) (src + 1) (omega arith))

copy_down-Copied :
    (n : ℕ) (ram : View) (dest src : ℕ)
    → src ≤ dest
    → Copied ram dest src n (copy_down n ram dest src)
unfolding copy_down
copy_down-Copied zero ram dest src le = record {
  inside = λ i lt. absurd (omega arith);
  outside = λ b o. refl;
}
copy_down-Copied (suc n) ram dest src le =
    Copied-down n ram dest src _ le
      (copy_down-Copied n (store ram (dest + n) (ram (src + n))) dest src le)

-- memcpy copies the n bytes and writes nothing else, where the destination does not start inside
-- the source.
pub memcpy-Copied :
    (ram : View) (dest src n : ℕ)
    → (dest ≤ src) ⊎ (src + n ≤ dest)
    → Copied ram dest src n (memcpy ram dest src n)
unfolding memcpy
memcpy-Copied ram dest src n apart = copy_up-Copied n ram dest src apart

-- memmove copies the n bytes as they were before the call and writes nothing else, however the two
-- areas overlap.
pub memmove-Copied : (ram : View) (dest src n : ℕ) → Copied ram dest src n (memmove ram dest src n)
unfolding memmove
memmove-Copied ram dest src n = elim (Bool-cases (leb dest src)) [
  | inl up ↦ rw up (copy_up-Copied n ram dest src (omega (arith, leb→le dest src up)))
  | inr down ↦ rw down (copy_down-Copied n ram dest src (omega (arith, leb→gt dest src down)))
]
