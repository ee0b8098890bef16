-- ===== src/Util.antt =====
-- src/kernel/util.c and safestrcpy of src/kernel/spaceswap.c: the kernel's memory and string
-- routines, over byte-addressed memory. Pointers are addresses; counts are at least 0 and, as the
-- sizes that the kernel passes, below 2^31. A loop that looks for a NUL byte runs on fuel, which
-- bounds the length of the string.
pub mod Copy
pub mod Move
pub mod Compare
mod Tests
use halo_os.Base.{
  ℕ, zero, suc, ◌+◌, ◌-◌, ◌%◌, Bool, true, false, not, ◌&&◌, Option, none, some, ltb, ◌==◌,
  if◌then◌else◌,
}
use halo_os.Base.Memory.{Mem, store}
use halo_os.Base.Int.{ℤ, pos, sub_ℕ}

-- `for(int i = 0; i < end; i++) upd[i] = val;`, with `n` rounds left
memset_loop : ℕ → ℕ → ℕ → Mem → Mem
memset_loop zero p val m = m
memset_loop (suc n) p val m = memset_loop n (p + 1) val (store m p (val % 256))

pub memset : Mem → ℕ → ℕ → ℕ → Mem
unfolding memset_loop
memset m target val end = memset_loop end target val m

-- `while(n-- > 0) *d++ = *s++;`
copy_up : ℕ → (d s : ℕ) → Mem → Mem
copy_up zero d s m = m
copy_up (suc n) d s m = copy_up n (d + 1) (s + 1) (store m d (m s))

-- `while(n-- > 0) *--d = *--s;`
copy_down : ℕ → (d s : ℕ) → Mem → Mem
copy_down zero d s m = m
copy_down (suc n) d s m = copy_down n (d - 1) (s - 1) (store m (d - 1) (m (s - 1)))

pub memmove : Mem → (dst src n : ℕ) → Mem
unfolding copy_up copy_down
memmove m dst src n =
    if n == 0
    then m
    else if ltb src dst && ltb dst (src + n)
    then copy_down n (dst + n) (src + n) m
    else copy_up n dst src m

-- The difference of the bytes at which the loop stops, or 0 when `n` bytes agree.
unfoldable pub strncmp : Mem → (p q n : ℕ) → ℤ
strncmp m p q zero = pos 0
strncmp m p q (suc n) =
    if not (m p == 0) && (m p == m q) then strncmp m (p + 1) (q + 1) n else sub_ℕ (m p) (m q)

-- `for(n = 0; s[n]; n++);`; `none` means that the fuel ran out.
strlen_loop : ℕ → Mem → (s n : ℕ) → Option ℕ
strlen_loop zero m s n = none
strlen_loop (suc f) m s n =
    let rest = strlen_loop f m s (n + 1) in if m (s + n) == 0 then some n else rest

pub strlen : ℕ → Mem → ℕ → Option ℕ
unfolding strlen_loop
strlen fuel m s = strlen_loop fuel m s 0

-- `while(n-- > 0) *s++ = 0;`
pad : ℕ → ℕ → Mem → Mem
pad zero s m = m
pad (suc n) s m = pad n (s + 1) (store m s 0)

-- `while(n-- > 0 && (*s++ = *t++) != 0);` and then the padding: the byte that stops the loop is
-- copied, and `n` is one less after it.
unfoldable pub strncpy : Mem → (s t n : ℕ) → Mem
unfolding pad
strncpy m s t zero = m
strncpy m s t (suc n) =
    let more = strncpy (store m s (m t)) (s + 1) (t + 1) n in
    if m t == 0 then pad n (s + 1) (store m s (m t)) else more

-- `while(--n > 0 && (*s++ = *t++) != 0); *s = 0;`, with `n` already decremented: behind a copied
-- NUL the final store writes one more.
safestrcpy_loop : Mem → (s t n : ℕ) → Mem
safestrcpy_loop m s t zero = store m s 0
safestrcpy_loop m s t (suc n) =
    let more = safestrcpy_loop (store m s (m t)) (s + 1) (t + 1) n in
    if m t == 0 then store (store m s (m t)) (s + 1) 0 else more

pub safestrcpy : Mem → (s t n : ℕ) → Mem
unfolding safestrcpy_loop
safestrcpy m s t n = if n == 0 then m else safestrcpy_loop m s t (n - 1)
