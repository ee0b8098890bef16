-- ===== src/Console.antt =====
-- src/kernel/console.c: the console's input buffer, edited by consoleintr and read by consoleread.
-- The counters `r`, `w` and `e` are `uint`s that wrap at 2^32; they index `buf` modulo INPUT_MAX.
-- What goes to consputc and wakeup is logged in the state. The spinlock is held by each routine
-- from its first to its last statement (but while it sleeps), so each is one step.
pub mod View
pub mod Intr
pub mod Reading
mod Tests
use halo_os.Base.{
  ℕ, zero, suc, ◌+◌, ◌-◌, ◌%◌, ◌^◌, Bool, true, false, not, ◌&&◌, ◌||◌, List, [], ◌∷◌, ◌++◌, ltb,
  ◌==◌, if◌then◌else◌, set,
}
use halo_os.Base.Window.{get_or}

-- `cons`, and the characters that went to consputc, last first
pub record Cons : Type 0 where
  pub buf : List ℕ
  pub r : ℕ
  pub w : ℕ
  pub e : ℕ
  pub echo : List ℕ
  pub wakeups : ℕ

abbrev pub input_max : ℕ
input_max = 128

abbrev pub backspace : ℕ
backspace = 0x100

-- `C('U')`, `C('H')` and `C('D')`
abbrev pub ctrl_u : ℕ
ctrl_u = 21

abbrev pub ctrl_h : ℕ
ctrl_h = 8

abbrev pub ctrl_d : ℕ
ctrl_d = 4

abbrev pub newline : ℕ
newline = 10

abbrev pub uint_add : ℕ → ℕ → ℕ
uint_add a b = (a + b) % 2 ^ 32

abbrev pub uint_sub : ℕ → ℕ → ℕ
uint_sub a b = (a + 2 ^ 32 - b) % 2 ^ 32

-- `cons.e--; consputc(BACKSPACE);`
pub erase_one : Cons → Cons
erase_one c = record c { e = uint_sub c.e 1; echo = backspace ∷ c.echo }

-- The test of the loop of C('U').
more_to_kill : Cons → Bool
more_to_kill c = not (c.e == c.w) && not (get_or c.buf (uint_sub c.e 1 % input_max) 0 == newline)

-- The loop, on fuel: it erases no more than the characters between `w` and `e`.
pub kill_line : ℕ → Cons → Cons
kill_line zero c = c
kill_line (suc fuel) c =
    let rest = kill_line fuel (erase_one c) in if more_to_kill c then rest else c

-- `case '\r'` is stored as a newline.
abbrev pub stored : ℕ → ℕ
stored c = if c == 13 then newline else c

-- consputc, the store, and `cons.e++`.
put : Cons → ℕ → Cons
put s c = record s { buf = set s.buf (s.e % input_max) c; e = uint_add s.e 1; echo = c ∷ s.echo }

-- A line is complete at a newline, at C('D') and when the buffer is full.
commit : Cons → ℕ → Cons
commit s c =
    if (c == newline || c == ctrl_d) || (s.e == uint_add s.r input_max)
    then record s { w = s.e; wakeups = s.wakeups + 1 }
    else s

pub consoleintr : Cons → ℕ → Cons
unfolding erase_one more_to_kill kill_line put commit
consoleintr s c =
    if c == ctrl_u
    then kill_line input_max s
    else if c == ctrl_h || c == 127
    then if not (s.e == s.w) then erase_one s else s
    else if not (c == 0) && ltb (uint_sub s.e s.r) input_max
    then commit (put s (stored c)) (stored c)
    else s

-- What happens while consoleread sleeps: characters arrive, and the process may be killed.
pub record Wake : Type 0 where
  pub chars : List ℕ
  pub killed : Bool

abbrev pub receive : Cons → List ℕ → Cons
receive s [] = s
receive s (c ∷ cs) = receive (consoleintr s c) cs

-- How a call of consoleread ends: with a count, killed, or still asleep when `wakes` is used up.
pub data Reply : Type 0 where
  count : ℕ → Reply
  killed : Reply
  asleep : Reply

pub record Read : Type 0 where
  pub reply : Reply
  pub state : Cons
  pub delivered : List ℕ

-- `while (cons.r == cons.w)`: `await` gives the state in which there is input.
pub data Await : Type 0 where
  ready : Cons → List Wake → Await
  stopped : Reply → Cons → Await

await : Bool → Cons → List Wake → Await
await dead s [] =
    if not (s.r == s.w) then ready s [] else stopped (if dead then killed else asleep) s
await dead s (k ∷ ks) =
    let again = await k.killed (receive s k.chars) ks in
    if not (s.r == s.w) then ready s (k ∷ ks) else if dead then stopped killed s else again

with_input : Await → List ℕ → (Cons → List Wake → Read) → Read
with_input (stopped reply s) out next = record { reply = reply; state = s; delivered = out }
with_input (ready s wakes) out next = next s wakes

-- The body of the loop behind the wait: the character `c` at `cons.r`, with `n + 1` of `target`
-- bytes to go, and `more` for the next round. C('D') behind other bytes stays in the buffer for the
-- next call; `fault` says that either_copyout returns -1.
on_char : (target n : ℕ) → (fault : Bool) → Cons → (c : ℕ) → List ℕ → (more : Read) → Read
on_char target n fault s c out more =
    let s1 : Cons = record s { r = uint_add s.r 1 } in
    if c == ctrl_d
    then record {
      reply = count (target - suc n);
      state = if ltb (suc n) target then record s1 { r = uint_sub s1.r 1 } else s1;
      delivered = out;
    }
    else if fault
    then record { reply = count (target - suc n); state = s1; delivered = out }
    else if c == newline
    then record { reply = count (target - n); state = s1; delivered = c ∷ out }
    else more

-- The loop of consoleread with `n` bytes to go; `faults` are the addresses at which either_copyout
-- fails, and `out` are the bytes delivered, last first.
read_loop : (faults : ℕ → Bool) → (target n dst : ℕ) → Bool → Cons → List Wake → List ℕ → Read
unfolding with_input on_char
read_loop faults target zero dst dead s wakes out = record {
  reply = count target;
  state = s;
  delivered = out;
}
read_loop faults target (suc n) dst dead s wakes out =
    with_input (await dead s wakes) out λ s' wakes'.
      let c = get_or s'.buf (s'.r % input_max) 0 in
      let s1 : Cons = record s' { r = uint_add s'.r 1 } in
      on_char target n (faults dst) s' c out
        (read_loop faults target n (dst + 1) dead s1 wakes' (c ∷ out))

pub consoleread : (faults : ℕ → Bool) → (dst n : ℕ) → Bool → Cons → List Wake → Read
unfolding await read_loop
consoleread faults dst n dead s wakes = read_loop faults n n dst dead s wakes []
