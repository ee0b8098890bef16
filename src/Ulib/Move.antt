-- ===== src/Ulib/Move.antt =====
-- memmove of src/user/ulib.c against its description byte by byte.
use halo_os.Base.{ℕ, zero, suc, ◌+◌, ◌-◌, ◌≤◌, ◌≡◌, arith, if◌then◌else◌}
use halo_os.Base.Memory.{Mem, store}
use halo_os.Util.Move.{inside}
use halo_os.Ulib.{copy_up, copy_down, memmove}

copy_up_lem :
    (n d s : ℕ) (m : Mem) (a : ℕ)
    → d ≤ s
    → copy_up n d s m a ≡ (if inside d n a then m (s + (a - d)) else m a)
unfolding copy_up
copy_up_lem zero d s m a h = ground arith
copy_up_lem (suc n) d s m a h = ground (arith, copy_up_lem n (d + 1) (s + 1) (store m d (m s)) a)

copy_down_lem :
    (n d s : ℕ) (m : Mem) (a : ℕ)
    → s ≤ d
    → copy_down n (d + n) (s + n) m a ≡ (if inside d n a then m (s + (a - d)) else m a)
unfolding copy_down
copy_down_lem zero d s m a h = ground arith
copy_down_lem (suc n) d s m a h =
    let e : d + suc n - 1 ≡ d + n = omega arith in
    let f : s + suc n - 1 ≡ s + n = omega arith in
    rw (e, f) (ground (arith, copy_down_lem n d s (store m (d + n) (m (s + n))) a))

-- For every overlap of the two ranges, each byte of the destination ends with what the source byte
-- at its offset held before the call, and no other byte changes.
pub user_memmove-copies :
    (m : Mem) (dst src n a : ℕ)
    → memmove m dst src n a ≡ (if inside dst n a then m (src + (a - dst)) else m a)
unfolding memmove
user_memmove-copies m dst src n a =
    ground (arith, copy_up_lem n dst src m a, copy_down_lem n dst src m a)
