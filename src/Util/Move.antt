-- ===== src/Util/Move.antt =====
-- memset and memmove of src/kernel/util.c against their descriptions byte by byte.
use halo_os.Base.{
  ℕ, zero, suc, ◌+◌, ◌-◌, ◌%◌, ◌≤◌, ◌≡◌, Bool, ◌&&◌, arith, ltb, leb, if◌then◌else◌, ◌⊎◌,
}
use halo_os.Base.Memory.{Mem, store}
use halo_os.Util.{memset_loop, memset, copy_up, copy_down, memmove}

-- `a` lies among the `n` bytes from `p` on
abbrev pub inside : (p n a : ℕ) → Bool
inside p n a = leb p a && ltb a (p + n)

memset_loop_lem :
    (n p val : ℕ) (m : Mem) (a : ℕ)
    → memset_loop n p val m a ≡ (if inside p n a then val % 256 else m a)
unfolding memset_loop
memset_loop_lem zero p val m a = ground arith
memset_loop_lem (suc n) p val m a =
    ground (arith, memset_loop_lem n (p + 1) val (store m p (val % 256)) a)

-- memset gives each of the `n` bytes from `p` on the low byte of `val`, and keeps all others.
pub memset-range :
    (m : Mem) (p val n a : ℕ) → memset m p val n a ≡ (if inside p n a then val % 256 else m a)
unfolding memset
memset-range m p val n a = memset_loop_lem n p val m a

copy_up_lem :
    (n d s : ℕ) (m : Mem) (a : ℕ)
    → (d ≤ s) ⊎ (s + n ≤ d)
    → copy_up n d s m a ≡ (if inside d n a then m (s + (a - d)) else m a)
unfolding copy_up
copy_up_lem zero d s m a h = ground arith
copy_up_lem (suc n) d s m a h = ground (arith, copy_up_lem n (d + 1) (s + 1) (store m d (m s)) a)

copy_down_lem :
    (n d s : ℕ) (m : Mem) (a : ℕ)
    → s ≤ d
    → copy_down n (d + n) (s + n) m a ≡ (if inside d n a then m (s + (a - d)) else m a)
unfolding copy_down
copy_down_lem zero d s m a h = ground arith
copy_down_lem (suc n) d s m a h =
    let e : d + suc n - 1 ≡ d + n = omega arith in
    let f : s + suc n - 1 ≡ s + n = omega arith in
    rw (e, f) (ground (arith, copy_down_lem n d s (store m (d + n) (m (s + n))) a))

-- For every overlap of the two ranges, each byte of the destination ends with what the source byte
-- at its offset held before the call, and no other byte changes.
pub memmove-copies :
    (m : Mem) (dst src n a : ℕ)
    → memmove m dst src n a ≡ (if inside dst n a then m (src + (a - dst)) else m a)
unfolding memmove
memmove-copies m dst src n a =
    ground (arith, copy_up_lem n dst src m a, copy_down_lem n dst src m a)
