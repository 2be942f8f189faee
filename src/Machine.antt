-- ===== src/Machine.antt =====
-- The machine that the loader runs on: its RAM, and the accesses to device registers so far, the
-- latest first. What a register reads depends on all of them. The accessors are those of register.c.
pub mod Prints
pub mod Bind
use pxa_impedance_matcher.Base.{ℕ, List, ◌∷◌, Result, done, fault, out_of_fuel, View, u8, u32}

-- One 32-bit access: its address, and the value written or read.
pub data Event : Type 0 where
  wrote : ℕ → ℕ → Event
  got : ℕ → ℕ → Event

-- The hardware: the value at an address, given the accesses before.
abbrev pub Device : Type 0
Device = List Event → ℕ → ℕ

pub record Machine : Type 0 where
  pub ram : View
  pub history : List Event

-- `stuck` is a loop that the program never leaves, at the machine where it enters it; `undefined`
-- is what C leaves undefined; `no_fuel` is a loop that the fuel did not suffice for.
pub data Run (A : Type 0) : Type 0 where
  ok : A → Machine → Run A
  stuck : Machine → Run A
  undefined : Run A
  no_fuel : Run A

abbrev pub Cmd : Type 0 → Type 0
Cmd A = Machine → Run A

abbrev pub pure : {A : Type 0} → A → Cmd A
pure = ok

module _ {A B : Type 0} where
  abbrev pub and_then : Run A → (A → Cmd B) → Run B
  and_then (ok a m) k = k a m
  and_then (stuck m) k = stuck m
  and_then undefined k = undefined
  and_then no_fuel k = no_fuel

  infixl 5 ◌>>=◌ ◌>>◌
  abbrev pub ◌>>=◌ : Cmd A → (A → Cmd B) → Cmd B
  c >>= k = λ m. and_then (c m) k

  abbrev pub ◌>>◌ : Cmd A → Cmd B → Cmd B
  c >> d = c >>= λ _. d

-- A computation that only reads, as a step of the machine.
abbrev pub lift : {A : Type 0} → Result A → Cmd A
lift (done a) m = ok a m
lift fault m = undefined
lift out_of_fuel m = no_fuel

-- The RAM as it is.
abbrev pub get_ram : Cmd View
get_ram m = ok m.ram m

abbrev pub set_ram : View → Cmd (Unit {0})
set_ram ram m = ok tt (record m { ram = ram })

-- `while (1) ;`
unfoldable pub panic : {A : Type 0} → Cmd A
panic m = stuck m

unfoldable pub writel : ℕ → ℕ → Cmd (Unit {0})
writel val addr m = ok tt (record m { history = wrote addr (u32 val) ∷ m.history })

-- The access has 32 bits, as in writel.
unfoldable pub writeb : ℕ → ℕ → Cmd (Unit {0})
writeb val addr m = ok tt (record m { history = wrote addr (u8 val) ∷ m.history })

module _ (dev : Device) where
  unfoldable pub readl : ℕ → Cmd ℕ
  readl addr m =
      let val = u32 (dev m.history addr) in ok val (record m { history = got addr val ∷ m.history })

  -- The access has 32 bits, and the result its low eight.
  unfoldable pub readb : ℕ → Cmd ℕ
  readb addr m =
      let val = u32 (dev m.history addr) in
      ok (u8 val) (record m { history = got addr val ∷ m.history })
