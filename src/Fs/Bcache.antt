-- ===== src/Fs/Bcache.antt =====
-- The buffer cache of src/kernel/fs.c. A buffer is its index in `bcache.bufs`; the ring through
-- `bcache.head` is the list of indices from `head.next` to `head.prev`. The disk is a function from
-- block numbers to bytes, which virt_disk_rw reads and writes. Waiting for the sleep lock of a buffer
-- comes behind bget, and is no part of the cache.
pub mod Unique
mod Tests
use halo_os.Base.{
  ℕ, zero, suc, ◌+◌, ◌-◌, ◌%◌, ◌^◌, Bool, true, false, not, ◌&&◌, Option, none, some, List, [], ◌∷◌,
  ◌++◌, ◌==◌, if◌then◌else◌,
}
use halo_os.Base.Array.{update}
use halo_os.Base.Outcome.{Outcome, ok, panic, ◌>>=◌}

abbrev pub nbuf : ℕ
nbuf = 16

-- `struct buf` but for the links and the lock; `holder` is the process that holds the lock
pub record Buf : Type 0 where
  pub vaild : Bool
  pub dev : ℕ
  pub blockno : ℕ
  pub refcnt : ℕ
  pub holder : Option ℕ
  pub bytes : ℕ → ℕ

pub record Bcache : Type 0 where
  pub bufs : ℕ → Buf
  pub ring : List ℕ

-- init_bcache puts each buffer behind the head; the memory of the cache is zero.
insert_all : (n i : ℕ) → List ℕ → List ℕ
insert_all zero i ring = ring
insert_all (suc n) i ring = insert_all n (i + 1) (i ∷ ring)

pub init_bcache : Bcache
unfolding insert_all
init_bcache = record {
  bufs = λ i. record {
    vaild = false;
    dev = 0;
    blockno = 0;
    refcnt = 0;
    holder = none;
    bytes = λ a. 0;
  };
  ring = insert_all nbuf 0 [];
}

-- `r->dev == dev && r->blockno == blockno`
abbrev pub is_block : (dev blockno : ℕ) → Buf → Bool
is_block dev blockno b = (b.dev == dev) && (b.blockno == blockno)

abbrev pub is_unused : Buf → Bool
is_unused b = b.refcnt == 0

-- The first loop of bget, along `next`.
first_buf : (Buf → Bool) → (ℕ → Buf) → List ℕ → Option ℕ
first_buf test bufs [] = none
first_buf test bufs (i ∷ is) = if test (bufs i) then some i else first_buf test bufs is

-- The second loop, along `prev`.
last_buf : (Buf → Bool) → (ℕ → Buf) → List ℕ → Option ℕ
last_buf test bufs [] = none
last_buf test bufs (i ∷ is) = elim (last_buf test bufs is) [
  | some j ↦ some j
  | none ↦ if test (bufs i) then some i else none
]

-- A buffer that is recycled for a block.
abbrev pub recycled : (dev blockno : ℕ) → Buf → Buf
recycled dev blockno b = record b { refcnt = 1; vaild = false; dev = dev; blockno = blockno }

pub bget : Bcache → (dev blockno : ℕ) → Outcome (ℕ × Bcache)
unfolding first_buf last_buf
bget c dev blockno = elim (first_buf (is_block dev blockno) c.bufs c.ring) [
  | some i ↦ ok (
    i,
    record c {
      bufs = update c.bufs i (record (c.bufs i) { refcnt = ((c.bufs i).refcnt + 1) % 2 ^ 32 });
    },
  )
  | none ↦ elim (last_buf is_unused c.bufs c.ring) [
    | some i ↦ ok (i, record c { bufs = update c.bufs i (recycled dev blockno (c.bufs i)) })
    | none ↦ panic
  ]
]

-- bread by process `me`, to which the lock of the buffer falls.
fetch : (disk : ℕ → ℕ → ℕ) → (me : ℕ) → Buf → Buf
fetch disk me b =
    if b.vaild
    then record b { holder = some me }
    else record b { holder = some me; bytes = disk b.blockno; vaild = true }

pub bread : (disk : ℕ → ℕ → ℕ) → Bcache → (me dev blockno : ℕ) → Outcome (ℕ × Bcache)
unfolding bget fetch
bread disk c me dev blockno = bget c dev blockno >>= λ (i, e).
    ok (i, record e { bufs = update e.bufs i (fetch disk me (e.bufs i)) })

abbrev pub is_holder : Option ℕ → ℕ → Bool
is_holder none me = false
is_holder (some p) me = p == me

pub bwrite : (disk : ℕ → ℕ → ℕ) → Bcache → (me i : ℕ) → Outcome (ℕ → ℕ → ℕ)
bwrite disk c me i =
    if not (is_holder (c.bufs i).holder me)
    then panic
    else ok (update disk (c.bufs i).blockno (c.bufs i).bytes)

-- `b->next->prev = b->prev; b->prev->next = b->next;`
unlink : ℕ → List ℕ → List ℕ
unlink i [] = []
unlink i (j ∷ js) = if j == i then js else j ∷ unlink i js

-- brelease; the unsigned count wraps.
pub brelease : Bcache → (me i : ℕ) → Outcome Bcache
unfolding unlink
brelease c me i =
    let n = ((c.bufs i).refcnt + 2 ^ 32 - 1) % 2 ^ 32 in
    let bufs = update c.bufs i (record (c.bufs i) { refcnt = n; holder = none }) in
    if not (is_holder (c.bufs i).holder me)
    then panic
    else ok (record { bufs = bufs; ring = if n == 0 then i ∷ unlink i c.ring else c.ring })
