-- ===== src/Ram/Area.antt =====
-- Writes that stay inside an area, such as a local array of libfdt/atags_to_fdt.c.
use pxa_impedance_matcher.Base.{ℕ, zero, suc, ◌+◌, ◌≤◌, ◌<◌, ◌≡◌, ◌≢◌, refl, ◌∙◌, ◌⊎◌, arith, View}
use pxa_impedance_matcher.Ram.{store, copy_up, memcpy}
use pxa_impedance_matcher.Endian.{store32}

-- Nothing but the bytes from `lo` on and below `hi` changes.
abbrev pub Keeps : ℕ → ℕ → View → View → Type 0
Keeps lo hi ram out = (a : ℕ) → (a < lo) ⊎ (hi ≤ a) → out a ≡ ram a

pub Keeps-trans :
    {lo hi : ℕ} {ram mid out : View}
    → Keeps lo hi ram mid
    → Keeps lo hi mid out
    → Keeps lo hi ram out
Keeps-trans f g a o = g a o ∙ f a o

store_other : (ram : View) (a x b : ℕ) → b ≢ a → store ram a x b ≡ ram b
unfolding store
store_other ram a x b ne = ground arith

module _ (lo hi : ℕ) where
  pub store-Keeps : (ram : View) (a x : ℕ) → lo ≤ a → a < hi → Keeps lo hi ram (store ram a x)
  store-Keeps ram a x above below b o = store_other ram a x b (omega arith)

  pub store32-Keeps :
      (ram : View) (a x : ℕ) → lo ≤ a → a + 4 ≤ hi → Keeps lo hi ram (store32 ram a x)
  unfolding store32
  store32-Keeps ram a x above below b o =
      store-Keeps _ (a + 3) _ (omega arith) (omega arith) b o
      ∙ store-Keeps _ (a + 2) _ (omega arith) (omega arith) b o
      ∙ store-Keeps _ (a + 1) _ (omega arith) (omega arith) b o
      ∙ store-Keeps ram a _ above (omega arith) b o

  copy_up-Keeps :
      (n : ℕ) (ram : View) (dest src : ℕ)
      → lo ≤ dest
      → dest + n ≤ hi
      → Keeps lo hi ram (copy_up n ram dest src)
  unfolding copy_up
  copy_up-Keeps zero ram dest src above below b o = refl
  copy_up-Keeps (suc n) ram dest src above below b o =
      copy_up-Keeps n (store ram dest (ram src)) (dest + 1) (src + 1) (omega arith) (omega arith) b
        o
      ∙ store-Keeps ram dest (ram src) above (omega arith) b o

  -- Wherever the source is.
  pub memcpy-Keeps :
      (ram : View) (dest src n : ℕ)
      → lo ≤ dest
      → dest + n ≤ hi
      → Keeps lo hi ram (memcpy ram dest src n)
  unfolding memcpy
  memcpy-Keeps ram dest src n = copy_up-Keeps n ram dest src
