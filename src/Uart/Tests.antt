-- ===== src/Uart/Tests.antt =====
-- The transmit buffer of src/kernel/memlayout.c on concrete bytes.
use halo_os.Base.{ℕ, zero, suc, ◌≤◌, ◌≡◌, refl, false, List, [], ◌∷◌, arith}
use halo_os.Uart.{Uart, uartstart, uartputc, consputc, uartinterrupt}
use halo_os.Console.{Cons}
use halo_os.Uart.Queue.{IsValid, Puts, history, queue, waiting, uartstart-history, uartputc-Puts}

abbrev zeros : ℕ → List ℕ
zeros zero = []
zeros (suc n) = 0 ∷ zeros n

-- Two bytes wait: `h` and `i`.
abbrev two : Uart
two = record { buf = 104 ∷ 105 ∷ zeros 30; w = 2; r = 0; sent = [] }

two-IsValid : IsValid two
two-IsValid = record { w_lt = omega arith; r_lt = omega arith; size = refl; fits = omega arith }

test-consputc : consputc 0x100 ≡ 8 ∷ 32 ∷ 8 ∷ []
unfolding consputc
test-consputc = refl

test-uartstart : (uartstart 1 two).sent ≡ 104 ∷ []
unfolding uartstart
test-uartstart = refl

uartputc-Puts_example : Puts false two 33 (uartputc false 2 two 33)
uartputc-Puts_example = uartputc-Puts false 2 two 33 two-IsValid

test-history :
    IsValid (uartstart 5 two)
    × (history (uartstart 5 two) ≡ history two)
    × (waiting two ≤ 5 → queue (uartstart 5 two) ≡ [])
test-history = uartstart-history 5 two two-IsValid

-- A console in which nothing was typed.
abbrev no_input : Cons
no_input = record { buf = zeros 128; r = 0; w = 0; e = 0; echo = []; wakeups = 0 }

test-uartinterrupt : (uartinterrupt (0 ∷ []) 2 no_input two).1.sent ≡ 105 ∷ 104 ∷ []
unfolding uartinterrupt uartstart
test-uartinterrupt = refl
