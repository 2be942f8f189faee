-- ===== src/Tests/Console.antt =====
-- The serial drivers and print.c on ready registers.
use pxa_impedance_matcher.Base.{◌+◌, ◌≡◌, refl, inl, List, [], ◌∷◌, arith, codes, lit, lit-Holds}
use pxa_impedance_matcher.Machine.{Event, Machine}
use pxa_impedance_matcher.Machine.Prints.{Prints}
use pxa_impedance_matcher.Uart.{written, putch_8250, putch_bcm63xx}
use pxa_impedance_matcher.Uart.Sends.{putch_8250-Prints, putch_bcm63xx-Prints}
use pxa_impedance_matcher.Uart.Exynos.{utxh, s5p_get_base_uart, putch_exynos}
use pxa_impedance_matcher.Uart.Exynos.Sends.{
  RoomSoon, exynos_emits, putch_exynos-Prints, putch_exynos-break,
}
use pxa_impedance_matcher.Print.{putstr, printhex}
use pxa_impedance_matcher.Print.Output.{
  echo_all, putstr-Prints, emits_all, hex_text, printhex-Prints,
}
use pxa_impedance_matcher.Tests.Setup.{board_device, uart, always-Ready, always_xfered, line}

abbrev idle : Machine
idle = record { ram = λ a. 0; history = [] }

putch_8250-Prints_example :
    Prints (written (uart + 0x00)) (b'A' ∷ []) idle (putch_8250 board_device uart 1 b'A' idle)
putch_8250-Prints_example =
    putch_8250-Prints board_device uart 1 always-Ready b'A' (omega arith) idle

bcm63xx_sends :
    Prints (written (uart + 0x14)) (b'A' ∷ []) idle (putch_bcm63xx board_device uart 1 b'A' idle)
bcm63xx_sends = putch_bcm63xx-Prints board_device uart 1 always_xfered b'A' (omega arith) idle

room-RoomSoon : (h : List Event) → RoomSoon board_device 2 1 h
unfolding RoomSoon s5p_get_base_uart
room-RoomSoon h = inl refl

putch_exynos-Prints_example :
    Prints
      (written (s5p_get_base_uart 2 + utxh))
      (exynos_emits 0x0a)
      idle
      (putch_exynos board_device 2 1 0x0a idle)
putch_exynos-Prints_example =
    putch_exynos-Prints board_device 2 1 room-RoomSoon 0x0a (omega arith) idle

-- Every bit of every register is set.
break_drops :
    Prints
      (written (s5p_get_base_uart 2 + utxh))
      []
      idle
      (putch_exynos (λ h a. 0xffffffff) 2 1 b'A' idle)
break_drops = putch_exynos-break (λ h a. 0xffffffff) 2 0 b'A' idle refl refl

putstr-Prints_example :
    Prints line.wire (echo_all line (codes "Hi\n")) idle (putstr line 9 (lit (codes "Hi\n")) 0 idle)
putstr-Prints_example =
    putstr-Prints line 9 (lit (codes "Hi\n")) 0 (codes "Hi\n")
      (lit-Holds (codes "Hi\n") (omega arith)) (omega arith) (omega arith) idle

printhex-Prints_example :
    Prints line.wire (emits_all line (hex_text 0x63138)) idle (printhex line 0x63138 idle)
printhex-Prints_example = printhex-Prints line 0x63138 idle

printhex_text : hex_text 0x63138 ≡ codes "00063138"
unfolding hex_text
printhex_text = refl
