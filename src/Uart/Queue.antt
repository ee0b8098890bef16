-- ===== src/Uart/Queue.antt =====
-- The transmit buffer of src/kernel/memlayout.c is a queue: what is sent and what is waiting are
-- together the bytes put, in order.
use mathlib.Core.List.{reverse}
use halo_os.Base.{
  ℕ, zero, suc, ◌+◌, ◌-◌, ◌%◌, ◌^◌, ◌≤◌, ◌<◌, ◌≡◌, ◌≢◌, refl, sym, ap, ◌∙◌, List, [], ◌∷◌, ◌++◌,
  append_assoc, arith, ◌==◌, set, length, length-set, Bool-cases, inl, inr, ne_of_==, ==_iff, Bool,
  true, false,
}
use mathlib.Core.List.{reverse-cons}
use halo_os.Base.Window.{get_or, window, window-congr, window-snoc}
use halo_os.Uart.{Uart, buf_size, add64, transmit, uartstart, Put, done, sleeps, hangs, uartputc}

-- How many bytes wait, and which.
abbrev pub waiting : Uart → ℕ
waiting u = (u.w + 2 ^ 64 - u.r) % 2 ^ 64

abbrev pub queue : Uart → List ℕ
queue u = window u.buf buf_size u.r (waiting u)

pub record IsValid (u : Uart) : Type 0 where
  pub w_lt : u.w < 2 ^ 64
  pub r_lt : u.r < 2 ^ 64
  pub size : length u.buf ≡ buf_size
  pub fits : waiting u ≤ buf_size

-- The bytes sent, in order, and those that wait behind them.
abbrev pub history : Uart → List ℕ
history u = reverse u.sent ++ queue u

transmit-IsValid : (u : Uart) → IsValid u → u.r ≢ u.w → IsValid (transmit u)
unfolding transmit
transmit-IsValid u v ne = record {
  w_lt = v.w_lt;
  r_lt = omega arith;
  size = v.size;
  fits = omega arith;
}

queue-transmit :
    (u : Uart)
    → IsValid u
    → u.r ≢ u.w
    → queue u ≡ get_or u.buf (u.r % buf_size) 0 ∷ queue (transmit u)
unfolding transmit window
queue-transmit u v ne =
    let n = waiting (transmit u) in
    let e : waiting u ≡ suc n = omega arith in
    ap (window u.buf buf_size u.r) e
    ∙ ap (λ l. get_or u.buf (u.r % buf_size) 0 ∷ l)
        (window-congr u.buf buf_size (u.r + 1) (add64 u.r 1) n (omega arith))

history-transmit : (u : Uart) → IsValid u → u.r ≢ u.w → history (transmit u) ≡ history u
unfolding transmit
history-transmit u v ne =
    let x = get_or u.buf (u.r % buf_size) 0 in
    ap (λ l. l ++ queue (transmit u)) (reverse-cons x u.sent)
    ∙ append_assoc (reverse u.sent) (x ∷ []) (queue (transmit u))
    ∙ ap (λ l. reverse u.sent ++ l) (sym (queue-transmit u v ne))

queue-nil : (u : Uart) → waiting u ≡ 0 → queue u ≡ []
unfolding window
queue-nil u h = rw h

-- uartstart keeps the buffer valid and the history as it is, and leaves nothing waiting when the
-- device is idle often enough.
pub uartstart-history :
    (idle : ℕ) (u : Uart)
    → IsValid u
    → IsValid (uartstart idle u)
      × (history (uartstart idle u) ≡ history u)
      × (waiting u ≤ idle → queue (uartstart idle u) ≡ [])
unfolding uartstart
uartstart-history zero u v = (v, refl, λ h. queue-nil u (omega arith))
uartstart-history (suc idle) u v = elim (Bool-cases (u.r == u.w)) [
  | inl same ↦ let e = (==_iff u.r u.w).0 same in rw same (v, refl, λ h. queue-nil u (omega arith))
  | inr diff ↦
      let ne = ne_of_== u.r u.w diff in
      let (v', same, empty) = uartstart-history idle (transmit u) (transmit-IsValid u v ne) in
      rw diff (v', same ∙ history-transmit u v ne, λ h. empty (unfold transmit in omega arith))
]

-- `uart_tx_buf[uart_tx_w % UART_TX_BUF_SIZE] = c; uart_tx_w += 1;`
abbrev stored : Uart → ℕ → Uart
stored u c = record u { buf = set u.buf (u.w % buf_size) c; w = add64 u.w 1 }

stored-IsValid : (u : Uart) (c : ℕ) → IsValid u → waiting u < buf_size → IsValid (stored u c)
stored-IsValid u c v room = record {
  w_lt = omega arith;
  r_lt = v.r_lt;
  size = length-set u.buf (u.w % buf_size) c ∙ v.size;
  fits = omega arith;
}

history-stored :
    (u : Uart) (c : ℕ)
    → IsValid u
    → waiting u < buf_size
    → history (stored u c) ≡ history u ++ (c ∷ [])
history-stored u c v room =
    let e : waiting (stored u c) ≡ waiting u + 1 = omega arith in
    ap (λ l. reverse u.sent ++ l)
      (ap (window (set u.buf (u.w % buf_size) c) buf_size u.r) e
        ∙ window-snoc u.buf buf_size u.r (waiting u) c (u.w % buf_size) room (omega arith)
            (omega arith))
    ∙ sym (append_assoc (reverse u.sent) (queue u) (c ∷ []))

-- What a call of uartputc must do: loop for ever after a panic, else sleep exactly when the buffer is
-- full, and otherwise append the byte to the history.
abbrev pub Puts : (panicked : Bool) → Uart → ℕ → Put → Type 0
Puts panicked u c hangs = panicked ≡ true
Puts panicked u c sleeps = (panicked ≡ false) × (waiting u ≡ buf_size)
Puts panicked u c (done u') =
    (panicked ≡ false) × (waiting u ≢ buf_size) × IsValid u' × (history u' ≡ history u ++ (c ∷ []))

-- uartputc on a valid buffer loops for ever exactly when `panicked` is set. If it is not, uartputc
-- sleeps exactly when all 32 places wait to be sent; otherwise the bytes sent and those waiting are
-- afterwards the ones before and `c`, in the order of the calls, however often the device is idle,
-- and the buffer is valid.
pub uartputc-Puts :
    (panicked : Bool) (idle : ℕ) (u : Uart) (c : ℕ)
    → IsValid u
    → Puts panicked u c (uartputc panicked idle u c)
unfolding uartputc
uartputc-Puts true idle u c v = refl
uartputc-Puts false idle u c v = elim (Bool-cases (u.w == add64 u.r buf_size)) [
  | inl full ↦ let e : u.w ≡ add64 u.r buf_size = (==_iff _ _).0 full in rw full (refl, omega arith)
  | inr more ↦
      let ne : u.w ≢ add64 u.r buf_size = ne_of_== _ _ more in
      let room : waiting u < buf_size = omega arith in
      let (v', same, _) = uartstart-history idle (stored u c) (stored-IsValid u c v room) in
      rw more (refl, omega arith, v', same ∙ history-stored u c v room)
]
