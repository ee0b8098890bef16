-- ===== src/Uart.antt =====
-- The UART's transmit buffer of src/kernel/memlayout.c: uartputc fills it, and uartstart hands its
-- bytes to the device while that is ready. The counters are `uint64`s that wrap at 2^64 and index
-- the buffer modulo UART_TX_BUF_SIZE. The device's LSR_TX_IDLE bit is an argument: the number of
-- reads of LSR, from now on, that find the transmitter idle.
pub mod Queue
mod Tests
use halo_os.Base.{
  ℕ, zero, suc, ◌+◌, ◌-◌, ◌%◌, ◌^◌, Bool, true, false, not, ◌&&◌, ◌||◌, List, [], ◌∷◌, ◌++◌, ltb,
  ◌==◌, if◌then◌else◌, set,
}
use halo_os.Base.Window.{get_or}
use halo_os.Console.{Cons, receive}

-- `uart_tx_buf`, `uart_tx_w` and `uart_tx_r`, and the bytes written to THR, last first
pub record Uart : Type 0 where
  pub buf : List ℕ
  pub w : ℕ
  pub r : ℕ
  pub sent : List ℕ

abbrev pub buf_size : ℕ
buf_size = 32

abbrev pub add64 : ℕ → ℕ → ℕ
add64 a b = (a + b) % 2 ^ 64

-- The body of uartstart's loop behind its two tests.
transmit : Uart → Uart
transmit u = record u { r = add64 u.r 1; sent = get_or u.buf (u.r % buf_size) 0 ∷ u.sent }

-- The loop of uartstart: it returns on an empty buffer, and when the device is not idle.
pub uartstart : (idle : ℕ) → Uart → Uart
unfolding transmit
uartstart zero u = u
uartstart (suc idle) u = let rest = uartstart idle (transmit u) in if u.r == u.w then u else rest

-- uartputc on a buffer with room; on a full one it sleeps until uartstart wakes it up, and after a
-- panic, which another CPU may have had, it loops for ever and holds the lock.
pub data Put : Type 0 where
  done : Uart → Put
  sleeps : Put
  hangs : Put

pub uartputc : (panicked : Bool) → (idle : ℕ) → Uart → ℕ → Put
unfolding uartstart
uartputc panicked idle u c =
    if panicked
    then hangs
    else if u.w == add64 u.r buf_size
    then sleeps
    else done (uartstart idle (record u { buf = set u.buf (u.w % buf_size) c; w = add64 u.w 1 }))

-- consputc, as the bytes that it hands to uartputc_sync: BACKSPACE is sent as backspace, blank,
-- backspace.
pub consputc : ℕ → List ℕ
consputc c = if c == 0x100 then 8 ∷ 32 ∷ 8 ∷ [] else c ∷ []

-- uartinterrupt: `chars` are those that uartgetc gives until it returns -1.
pub uartinterrupt : (chars : List ℕ) → (idle : ℕ) → Cons → Uart → Cons × Uart
unfolding uartstart
uartinterrupt chars idle c u = (receive c chars, uartstart idle u)
