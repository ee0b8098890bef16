-- ===== src/Ulib.antt =====
-- src/user/ulib.c: the user library's memory and string routines, over byte-addressed memory. They
-- share the stores of the kernel's; memmove tests the pointers another way. A loop that looks for
-- a byte runs on fuel, which bounds the length of the string.
pub mod Move
pub mod Number
mod Tests
use halo_os.Base.{
  ℕ, zero, suc, ◌+◌, ◌-◌, ◌*◌, ◌%◌, ◌^◌, Bool, not, ◌&&◌, Option, none, some, ltb, leb, ◌==◌,
  if◌then◌else◌,
}
use halo_os.Base.Memory.{Mem, store}
use halo_os.Base.Int.{ℤ, pos, sub_ℕ}

-- `while (n-- > 0) *dst++ = *src++;`
copy_up : ℕ → (dst src : ℕ) → Mem → Mem
copy_up zero d s m = m
copy_up (suc n) d s m = copy_up n (d + 1) (s + 1) (store m d (m s))

-- `while (n-- > 0) *--dst = *--src;`
copy_down : ℕ → (dst src : ℕ) → Mem → Mem
copy_down zero d s m = m
copy_down (suc n) d s m = copy_down n (d - 1) (s - 1) (store m (d - 1) (m (s - 1)))

pub memmove : Mem → (vdst vsrc n : ℕ) → Mem
unfolding copy_up copy_down
memmove m dst src n = if ltb dst src then copy_up n dst src m else copy_down n (dst + n) (src + n) m

pub memcpy : Mem → (dst src n : ℕ) → Mem
unfolding memmove
memcpy m dst src n = memmove m dst src n

-- `for (n = 0; buf[n]; n++);`
strlen_loop : ℕ → Mem → (buf n : ℕ) → Option ℕ
strlen_loop zero m buf n = none
strlen_loop (suc f) m buf n =
    let rest = strlen_loop f m buf (n + 1) in if m (buf + n) == 0 then some n else rest

pub strlen : ℕ → Mem → ℕ → Option ℕ
unfolding strlen_loop
strlen fuel m buf = strlen_loop fuel m buf 0

-- `n = n * 10 + *s++ - '0'` on `int`, whose value is below 2^31 where the number fits.
atoi_loop : ℕ → Mem → (s n : ℕ) → Option ℕ
atoi_loop zero m s n = none
atoi_loop (suc f) m s n =
    let rest = atoi_loop f m (s + 1) ((n * 10 + m s - b'0') % 2 ^ 32) in
    if leb b'0' (m s) && leb (m s) b'9' then rest else some n

pub atoi : ℕ → Mem → ℕ → Option ℕ
unfolding atoi_loop
atoi fuel m s = atoi_loop fuel m s 0

pub strcmp : ℕ → Mem → (p q : ℕ) → Option ℤ
strcmp zero m p q = none
strcmp (suc f) m p q =
    let rest = strcmp f m (p + 1) (q + 1) in
    if not (m p == 0) && (m p == m q) then rest else some (sub_ℕ (m p) (m q))

-- `while (n-- > 0)`, on bytes below 128, where `char` has one sign
pub memcmp : Mem → (p1 p2 n : ℕ) → ℤ
memcmp m p1 p2 zero = pos 0
memcmp m p1 p2 (suc n) = if m p1 == m p2 then memcmp m (p1 + 1) (p2 + 1) n else sub_ℕ (m p1) (m p2)

-- The address of the first `c`, and 0 if the string has none.
pub strchr : ℕ → Mem → (s c : ℕ) → Option ℕ
strchr zero m s c = none
strchr (suc f) m s c =
    let rest = strchr f m (s + 1) c in
    if m s == 0 then some 0 else if m s == c then some s else rest

-- `while ((*s++ = *t++) != 0);`
pub strcpy : ℕ → Mem → (s t : ℕ) → Option Mem
strcpy zero m s t = none
strcpy (suc f) m s t =
    let rest = strcpy f (store m s (m t)) (s + 1) (t + 1) in
    if m t == 0 then some (store m s (m t)) else rest
