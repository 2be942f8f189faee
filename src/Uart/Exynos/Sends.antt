-- ===== src/Uart/Exynos/Sends.antt =====
-- What the exynos driver sends, and when it drops a character.
use pxa_impedance_matcher.Base.{
  ℕ, zero, suc, ◌+◌, ◌<◌, bit_and, ◌≡◌, refl, sym, ap, ◌∙◌, ◌⊎◌, inl, inr, Bool, true, false, List,
  [], ◌∷◌, ◌++◌, append_assoc, append-nil, arith, ◌==◌, if◌then◌else◌, Bool-cases, ==→eq, eq→==, u8,
  u32,
}
use pxa_impedance_matcher.Machine.{
  Event, wrote, got, Device, Machine, Run, ok, Cmd, pure, ◌>>=◌, ◌>>◌, readl, writeb,
}
use pxa_impedance_matcher.Machine.Prints.{Prints, Prints-pure}
use pxa_impedance_matcher.Uart.{Serial, written, written-got, written-wrote}
use pxa_impedance_matcher.Uart.Exynos.{
  uerstat, ufstat, utxh, tx_fifo_full_mask, uart, wait_room, putch_exynos,
}

-- What one call adds to the line: the driver follows '\n' by '\r' itself.
unfoldable pub exynos_emits : ℕ → List ℕ
exynos_emits c = if c == 0x0a then 0x0a ∷ 0x0d ∷ [] else c ∷ []

module _ (dev : Device) (uart_port : ℕ) where
  abbrev base : ℕ
  base = uart dev uart_port

  -- What the loop polls after `h`: the FIFO's state, and behind a full one the error register.
  abbrev status : List Event → ℕ
  status h = u32 (dev h (base + ufstat))

  abbrev polled : List Event → List Event
  polled h = got (base + ufstat) (status h) ∷ h

  abbrev errors : List Event → ℕ
  errors h = u32 (dev (polled h) (base + uerstat))

  abbrev has_room : List Event → Bool
  has_room h = bit_and (status h) tx_fifo_full_mask == 0

  abbrev no_break : List Event → Bool
  no_break h = bit_and (errors h) 0x8 == 0

  -- Within `k` polls there is room, and no break is seen before.
  unfoldable pub RoomSoon : ℕ → List Event → Type 0
  RoomSoon zero h = ⊥
  RoomSoon (suc k) h =
      (has_room h ≡ true)
      ⊎ ((no_break h ≡ true) × RoomSoon k (got (base + uerstat) (errors h) ∷ polled h))

  -- The wait ends with room, having put nothing on the line.
  record Waited (m : Machine) (r : Run Bool) : Type 0 where
    after : Machine
    returns : r ≡ ok true after
    line : written (base + utxh) after.history ≡ written (base + utxh) m.history
    same_ram : after.ram ≡ m.ram

  wait_room-Waited :
      (f : ℕ) (m : Machine) → RoomSoon f m.history → Waited m (wait_room dev uart_port f m)
  unfolding wait_room RoomSoon readl written
  wait_room-Waited zero m soon = absurd soon
  wait_room-Waited (suc f) m soon = elim (Bool-cases (has_room m.history)) [
    | inl room ↦ rw room (record {
      after = record m { history = polled m.history };
      returns = refl;
      line = refl;
      same_ram = refl;
    })
    | inr full ↦
        let (calm, more) = later full soon in
        let w = wait_room-Waited f next more in
        rw (full, calm)
          (record { after = w.after; returns = w.returns; line = w.line; same_ram = w.same_ram })
  ]
    where
      next : Machine
      next = record m { history = got (base + uerstat) (errors m.history) ∷ polled m.history }

      later :
          has_room m.history ≡ false
          → RoomSoon (suc f) m.history
          → (no_break m.history ≡ true) × RoomSoon f next.history
      later full (inl room) = cc
      later full (inr more) = more

  -- One call's own character.
  sent_one : ℕ → Machine → Machine
  sent_one c m = record m { history = wrote (base + utxh) (u8 c) ∷ m.history }

  Prints-sent :
      {out : List ℕ} {m : Machine} (f c : ℕ) (k : Cmd (Unit {0}))
      → c < 256
      → Waited m (wait_room dev uart_port f m)
      → ((m' : Machine) → Prints (written (base + utxh)) out m' (k m'))
      → Prints (written (base + utxh)) (c ∷ out) m (
          (do
            room ← wait_room dev uart_port f
            if room then (do writeb c (base + utxh); k) else pure tt)
            m)
  unfolding writeb written sent_one
  Prints-sent {out} {m} f c k small w next =
      let p = next (sent_one c w.after) in
      record {
        after = p.after;
        returns = rw w.returns p.returns;
        line =
            p.line
            ∙ rw (eq→== (base + utxh) (base + utxh) refl, w.line)
                (append_assoc (written (base + utxh) m.history) (u8 c ∷ []) out
                  ∙ ap (λ x. written (base + utxh) m.history ++ x ∷ out) (omega arith));
        same_ram = p.same_ram ∙ w.same_ram;
      }

  -- Where the FIFO of an exynos UART always gets room within the polls before a break is seen,
  -- __putch returns and sends its character, and after '\n' also '\r'.
  pub putch_exynos-Prints :
      (f : ℕ)
      → ((h : List Event) → RoomSoon f h)
      → (c : ℕ) → c < 256
      → (m : Machine)
      → Prints (written (base + utxh)) (exynos_emits c) m (putch_exynos dev uart_port f c m)
  unfolding putch_exynos exynos_emits
  putch_exynos-Prints f soon c small m = elim (Bool-cases (c == 0x0a)) [
    | inl newline ↦ rw newline (
        rw (==→eq c 0x0a newline) (
          Prints-sent f 0x0a _ (omega arith) (wait_room-Waited f m (soon m.history)) λ m'.
            Prints-sent f 0x0d (pure tt) (omega arith) (wait_room-Waited f m' (soon m'.history))
              λ m''. Prints-pure m''))
    | inr other ↦ rw other (
        Prints-sent f c (pure tt) small (wait_room-Waited f m (soon m.history))
          λ m'. Prints-pure m')
  ]

  -- While the FIFO of an exynos UART is full and a break is flagged, __putch returns without
  -- sending its character.
  pub putch_exynos-break :
      (f c : ℕ) (m : Machine)
      → has_room m.history ≡ false
      → no_break m.history ≡ false
      → Prints (written (base + utxh)) [] m (putch_exynos dev uart_port (suc f) c m)
  unfolding putch_exynos readl written
  putch_exynos-break f c m full flagged =
      rw (full, flagged)
        (record {
          after = record m { history = got (base + uerstat) (errors m.history) ∷ polled m.history };
          returns = refl;
          line = sym (append-nil _);
          same_ram = refl;
        })

  unfoldable pub serial_exynos : (f : ℕ) → ((h : List Event) → RoomSoon f h) → Serial
  serial_exynos f soon = record {
    putch = putch_exynos dev uart_port f;
    wire = written (base + utxh);
    emits = exynos_emits;
    data_register = base + utxh;
    wire-wrote = written-wrote (base + utxh);
    wire-got = written-got (base + utxh);
    putch_prints = putch_exynos-Prints f soon;
  }
