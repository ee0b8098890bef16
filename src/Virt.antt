-- ===== src/Virt.antt =====
-- src/kernel/virt.c: the virtio disk driver. An array of NUM entries is a function from indices.
-- Addresses of the driver's own objects are kept as what they point to: a request header by its
-- index in `ops`, the data of a buffer by the buffer, a status byte by its index in `info`. The
-- device is the argument of the interrupt handler. The lock is held by each routine throughout, but
-- for the sleep in virt_disk_rw, which parts it in two.
pub mod Alloc
pub mod Chain
mod Tests
use halo_os.Base.{
  ℕ, zero, suc, ◌+◌, ◌-◌, ◌*◌, ◌/◌, ◌%◌, ◌^◌, Bool, true, false, not, Option, none, some, List, [],
  ◌∷◌, ltb, leb, ◌==◌, if◌then◌else◌, bit_and, bit_or,
}
use mathlib.Core.Option
use halo_os.Base.Array.{update}
use halo_os.Base.Outcome.{Outcome, ok, panic}

abbrev pub num : ℕ
num = 8

abbrev pub desc_next : ℕ
desc_next = 1

abbrev pub desc_write : ℕ
desc_write = 2

-- What the address of a descriptor points to.
pub data Addr : Type 0 where
  nowhere : Addr
  header : ℕ → Addr
  block : ℕ → Addr
  status : ℕ → Addr

pub record Desc : Type 0 where
  pub addr : Addr
  pub len : ℕ
  pub flags : ℕ
  pub next : ℕ

abbrev pub cleared : Desc
cleared = record { addr = nowhere; len = 0; flags = 0; next = 0 }

-- `struct virt_blk_req`
pub record Req : Type 0 where
  pub kind : ℕ
  pub reserved : ℕ
  pub sector : ℕ

-- `info[i]`: the buffer of the request that begins at descriptor `i`, and its status
pub record Info : Type 0 where
  pub buf : Option ℕ
  pub state : ℕ

-- `struct disk`; `busy` is `b->disk` of the buffers.
pub record Disk : Type 0 where
  pub desc : ℕ → Desc
  pub free : ℕ → ℕ
  pub ring : ℕ → ℕ
  pub index : ℕ
  pub info : ℕ → Info
  pub used_idx : ℕ
  pub ops : ℕ → Req
  pub busy : ℕ → ℕ

-- The first free index among `n` from `i` on.
find_free : (n i : ℕ) → (ℕ → ℕ) → Option ℕ
find_free zero i free = none
find_free (suc n) i free =
    let rest = find_free n (i + 1) free in if not (free i == 0) then some i else rest

pub alloc_desc : Disk → Option ℕ × Disk
unfolding find_free
alloc_desc d = elim (find_free num 0 d.free) [
  | none ↦ (none, d)
  | some i ↦ (some i, record d { free = update d.free i 0 })
]

-- A bad index and a free descriptor are reported and left alone. The wakeup of `&disk.free[0]` has
-- no sleeper.
pub free_desc : Disk → ℕ → Disk
free_desc d i =
    if leb num i
    then d
    else if not (d.free i == 0)
    then d
    else record d { desc = update d.desc i cleared; free = update d.free i 1 }

pub record Three : Type 0 where
  pub head : ℕ
  pub body : ℕ
  pub tail : ℕ

-- The loop over `i < 3` written out: what was allocated is freed where a later call fails.
alloc_third : ℕ → ℕ → Option ℕ × Disk → Option Three × Disk
alloc_third a b (none, e) = (none, free_desc (free_desc e a) b)
alloc_third a b (some c, e) = (some (record { head = a; body = b; tail = c }), e)

alloc_second : ℕ → Option ℕ × Disk → Option Three × Disk
alloc_second a (none, e) = (none, free_desc e a)
alloc_second a (some b, e) = alloc_third a b (alloc_desc e)

alloc_first : Option ℕ × Disk → Option Three × Disk
alloc_first (none, e) = (none, e)
alloc_first (some a, e) = alloc_second a (alloc_desc e)

pub alloc3_desc : Disk → Option Three × Disk
unfolding alloc_desc free_desc alloc_third alloc_second alloc_first
alloc3_desc d = alloc_first (alloc_desc d)

-- `while (1)` on fuel; each round frees a descriptor of the chain.
pub free_chain : ℕ → Disk → ℕ → Option Disk
unfolding free_desc
free_chain zero d i = none
free_chain (suc fuel) d i =
    let flag = (d.desc i).flags in
    let nxt = (d.desc i).next in
    let d' = free_desc d i in
    let rest = free_chain fuel d' nxt in if bit_and flag desc_next == 0 then some d' else rest

-- virt_disk_rw down to the sleep: the request for `block` of buffer `b`, in three descriptors.
-- A sector is 512 bytes, and `uint` arithmetic wraps.
submit_at : Disk → Three → (b blockno : ℕ) → (write : Bool) → Disk
submit_at d t b blockno write =
    let data_flags = bit_or (if write then 0 else desc_write) desc_next in
    let ops =
      update d.ops t.head
        (record { kind = if write then 1 else 0; reserved = 0; sector = blockno * 2 % 2 ^ 32 }) in
    let desc1 =
      update d.desc t.head
        (record { addr = header t.head; len = 16; flags = desc_next; next = t.body }) in
    let desc2 =
      update desc1 t.body
        (record { addr = block b; len = 1024; flags = data_flags; next = t.tail }) in
    let desc3 =
      update desc2 t.tail
        (record { addr = status t.head; len = 1; flags = desc_write; next = 0 }) in
    record d {
      desc = desc3;
      ops = ops;
      info = update d.info t.head (record { buf = some b; state = 0xff });
      busy = update d.busy b 1;
      ring = update d.ring (d.index % num) t.head;
      index = (d.index + 1) % 2 ^ 16;
    }

-- `none`: fewer than three descriptors are free, and the loop around alloc3_desc does not end,
-- since it holds the lock that freeing one takes.
pub submit : Disk → (b blockno : ℕ) → (write : Bool) → Option (Three × Disk)
unfolding alloc3_desc submit_at
submit d b blockno write =
    let (t, e) = alloc3_desc d in Option.map (λ x. (x, submit_at e x b blockno write)) t

-- virt_disk_rw behind the sleep.
pub finish : Disk → ℕ → Option Disk
unfolding free_chain
finish d head =
    free_chain num
      (record d { info = update d.info head (record { buf = none; state = (d.info head).state }) })
      head

-- virtio_disk_isr: `used` are the ids that the device has put into the used ring since the last
-- interrupt; each marks its buffer as done.
pub isr : Disk → (used : List ℕ) → Outcome Disk
isr d [] = ok d
isr d (id ∷ used) = elim ((d.info id).buf) [
  | none ↦ panic
  | some b ↦ isr (record d { busy = update d.busy b 0; used_idx = (d.used_idx + 1) % 2 ^ 16 }) used
]
