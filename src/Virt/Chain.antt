-- ===== src/Virt/Chain.antt =====
-- The chain of three descriptors that virt_disk_rw of src/kernel/virt.c builds and frees.
use mathlib.Core.Option
use halo_os.Base.{
  ℕ, suc, ◌+◌, ◌*◌, ◌%◌, ◌^◌, ◌<◌, ◌≡◌, ◌≢◌, refl, ap, ◌∙◌, subst, Bool, true, false, ◌||◌, Option,
  none, some, arith, leb, ◌==◌, if◌then◌else◌, ==_of_ne, ==_refl, some_inj, none-ne-some, bit_and,
  bit_or,
}
use halo_os.Base.Array.{update}
use halo_os.Fs.Layout.{bsize}
use halo_os.Virt.{
  num, desc_next, desc_write, Addr, header, block, status, Disk, Three, free_desc, alloc3_desc,
  free_chain, submit_at, submit, finish,
}
use halo_os.Virt.Alloc.{Allocs3, Flags, alloc3_desc-Allocs3}

-- Three different taken descriptors that are linked from `head` to `tail`.
pub record Chained (e : Disk) (t : Three) : Type 0 where
  pub head_lt : t.head < num
  pub body_lt : t.body < num
  pub tail_lt : t.tail < num
  pub head_body : t.head ≢ t.body
  pub head_tail : t.head ≢ t.tail
  pub body_tail : t.body ≢ t.tail
  pub head_taken : e.free t.head ≡ 0
  pub body_taken : e.free t.body ≡ 0
  pub tail_taken : e.free t.tail ≡ 0
  pub head_next : bit_and (e.desc t.head).flags desc_next ≡ 1
  pub to_body : (e.desc t.head).next ≡ t.body
  pub body_next : bit_and (e.desc t.body).flags desc_next ≡ 1
  pub to_tail : (e.desc t.body).next ≡ t.tail
  pub tail_end : bit_and (e.desc t.tail).flags desc_next ≡ 0

-- What the device is told: a header of 16 bytes with the direction and the sector, the buffer's 1024
-- bytes with the direction, and a status byte to write. A block number below 2^31 is the number of
-- the sector of 512 bytes at the block's first byte.
pub record Request (e : Disk) (t : Three) (b blockno : ℕ) (write : Bool) : Type 0 where
  pub header_at : (e.desc t.head).addr ≡ header t.head
  pub block_at : (e.desc t.body).addr ≡ block b
  pub status_at : (e.desc t.tail).addr ≡ status t.head
  pub device_writes : bit_and (e.desc t.body).flags desc_write ≡ (if write then 0 else 2)
  pub kind : (e.ops t.head).kind ≡ (if write then 1 else 0)
  pub sector_at : blockno < 2 ^ 31 → (e.ops t.head).sector * 512 ≡ blockno * bsize
  pub reserved_zero : (e.ops t.head).reserved ≡ 0
  pub header_len : (e.desc t.head).len ≡ 16
  pub block_len : (e.desc t.body).len ≡ bsize
  pub status_len : (e.desc t.tail).len ≡ 1
  pub header_read : bit_and (e.desc t.head).flags desc_write ≡ 0
  pub status_written : bit_and (e.desc t.tail).flags desc_write ≡ 2
  pub status_unset : (e.info t.head).state ≡ 0xff
  pub owner : (e.info t.head).buf ≡ some b
  pub waits : e.busy b ≡ 1

data_flags_next :
    (write : Bool) → bit_and (bit_or (if write then 0 else desc_write) desc_next) desc_next ≡ 1
data_flags_next true = refl
data_flags_next false = refl

data_flags_write :
    (write : Bool)
    → bit_and (bit_or (if write then 0 else desc_write) desc_next) desc_write
      ≡ (if write then 0 else 2)
data_flags_write true = refl
data_flags_write false = refl

module _ (d e : Disk) (t : Three) (b blockno : ℕ) (write : Bool) (got : Allocs3 d (some t, e)) where
  submit_at-Chained : Chained (submit_at e t b blockno write) t
  unfolding submit_at
  submit_at-Chained =
      let (same, lh, lb, lt, hb, ht, bt, _, _, _) = got in
      let h0 : e.free t.head ≡ 0 = rw same (ground arith) in
      let b0 : e.free t.body ≡ 0 = rw same (ground arith) in
      let t0 : e.free t.tail ≡ 0 = rw same (ground arith) in
      record {
        head_lt = lh;
        body_lt = lb;
        tail_lt = lt;
        head_body = hb;
        head_tail = ht;
        body_tail = bt;
        head_taken = h0;
        body_taken = b0;
        tail_taken = t0;
        head_next = rw (==_of_ne t.head t.tail ht, ==_of_ne t.head t.body hb, ==_refl t.head);
        to_body = rw (==_of_ne t.head t.tail ht, ==_of_ne t.head t.body hb, ==_refl t.head);
        body_next = rw (==_of_ne t.body t.tail bt, ==_refl t.body) (data_flags_next write);
        to_tail = rw (==_of_ne t.body t.tail bt, ==_refl t.body);
        tail_end = rw (==_refl t.tail);
      }

  submit_at-Request : Request (submit_at e t b blockno write) t b blockno write
  unfolding submit_at
  submit_at-Request =
      let (_, _, _, _, hb, ht, bt, _, _, _) = got in
      record {
        header_at = rw (==_of_ne t.head t.tail ht, ==_of_ne t.head t.body hb, ==_refl t.head);
        block_at = rw (==_of_ne t.body t.tail bt, ==_refl t.body);
        status_at = rw (==_refl t.tail);
        device_writes = rw (==_of_ne t.body t.tail bt, ==_refl t.body) (data_flags_write write);
        kind = rw (==_refl t.head);
        sector_at = λ lt. rw (==_refl t.head) (omega arith);
        reserved_zero = rw (==_refl t.head);
        header_len = rw (==_of_ne t.head t.tail ht, ==_of_ne t.head t.body hb, ==_refl t.head);
        block_len = rw (==_of_ne t.body t.tail bt, ==_refl t.body);
        status_len = rw (==_refl t.tail);
        header_read = rw (==_of_ne t.head t.tail ht, ==_of_ne t.head t.body hb, ==_refl t.head);
        status_written = rw (==_refl t.tail);
        status_unset = rw (==_refl t.head);
        owner = rw (==_refl t.head);
        waits = rw (==_refl b);
      }

-- The flags behind the three frees.
abbrev pub freed : Disk → Three → ℕ → ℕ
freed e t j = if (j == t.head) || ((j == t.body) || (j == t.tail)) then 1 else e.free j

restored :
    (d e : Disk) (t : Three) → Allocs3 d (some t, e) → Flags d → (j : ℕ) → d.free j ≡ freed e t j
restored d e t (same, lh, lb, lt, hb, ht, bt, fh, fb, ft) flags j =
    rw same (ground (arith, flags j, flags t.head, flags t.body, flags t.tail))

abbrev Submitted : Disk → (b blockno : ℕ) → Bool → Three × Disk → Type 0
Submitted d b blockno write (t, e) =
    Chained e t
    × Request e t b blockno write
    × (e.ring (d.index % num) ≡ t.head)
    × (e.index ≡ (d.index + 1) % 2 ^ 16)
    × ((j : ℕ) → d.free j ≡ freed e t j)

-- virt_disk_rw, when it gets past the loop around alloc3_desc on a disk whose flags are 0 or 1, has
-- linked three different descriptors below 8 from head to tail, which describe the request for this
-- buffer, block and direction, has put the head into the available ring, and marks the buffer as
-- waiting; the three were free, and no other flag has changed. The sector of the request is at the
-- first byte of the block if the block number is below 2^31.
pub submit-Chained :
    (d : Disk) (b blockno : ℕ) (write : Bool) {t : Three} {e : Disk}
    → Flags d
    → submit d b blockno write ≡ some (t, e)
    → Chained e t
      × Request e t b blockno write
      × (e.ring (d.index % num) ≡ t.head)
      × (e.index ≡ (d.index + 1) % 2 ^ 16)
      × ((j : ℕ) → d.free j ≡ freed e t j)
unfolding submit
submit-Chained d b blockno write {t} {e} flags h =
    go (alloc3_desc d).0 (alloc3_desc d).1 (alloc3_desc-Allocs3 d flags) h
  where
    go :
        (o : Option Three) (k : Disk)
        → Allocs3 d (o, k)
        → Option.map {B = Three × Disk} (λ x. (x, submit_at k x b blockno write)) o ≡ some (t, e)
        → Submitted d b blockno write (t, e)
    go none k got h = absurd (none-ne-some (t, e) h)
    go (some u) k got h =
        subst (Submitted d b blockno write) (some_inj (u, submit_at k u b blockno write) (t, e) h) (
          submit_at-Chained d k u b blockno write got,
          submit_at-Request d k u b blockno write got,
          rw (got.0) (unfold submit_at in ground arith),
          rw (got.0) (unfold submit_at in refl),
          λ j. unfold submit_at in restored d k u got flags j,
        )

chain_step :
    (fuel : ℕ) (d : Disk) (i nxt : ℕ)
    → bit_and (d.desc i).flags desc_next ≡ 1
    → (d.desc i).next ≡ nxt
    → free_chain (suc fuel) d i ≡ free_chain fuel (free_desc d i) nxt
unfolding free_chain
chain_step fuel d i nxt f n = rw (f, n)

chain_end :
    (fuel : ℕ) (d : Disk) (i : ℕ)
    → bit_and (d.desc i).flags desc_next ≡ 0
    → free_chain (suc fuel) d i ≡ some (free_desc d i)
unfolding free_chain
chain_end fuel d i f = rw f

free_desc_taken :
    (d : Disk) (i : ℕ)
    → i < num
    → d.free i ≡ 0
    → free_desc d i ≡ record d {
      desc = update d.desc i (record { addr = Addr.nowhere; len = 0; flags = 0; next = 0 });
      free = update d.free i 1;
    }
unfolding free_desc
free_desc_taken d i lt z = let le : leb num i ≡ false = ground arith in rw (le, z)

-- The disk behind `free_desc` of a taken descriptor.
abbrev released : Disk → ℕ → Disk
released d i = record d {
  desc = update d.desc i (record { addr = Addr.nowhere; len = 0; flags = 0; next = 0 });
  free = update d.free i 1;
}

free_chain-three :
    (e : Disk) (t : Three) (fuel : ℕ)
    → Chained e t
    → free_chain (suc (suc (suc fuel))) e t.head
      ≡ some (released (released (released e t.head) t.body) t.tail)
free_chain-three e t fuel c =
    let e1 = released e t.head in
    let e2 = released e1 t.body in
    chain_step (suc (suc fuel)) e t.head t.body c.head_next c.to_body
    ∙ ap (λ x. free_chain (suc (suc fuel)) x t.body)
        (free_desc_taken e t.head c.head_lt c.head_taken)
    ∙ chain_step (suc fuel) e1 t.body t.tail (ground arith) (ground arith)
    ∙ ap (λ x. free_chain (suc fuel) x t.tail) (free_desc_taken e1 t.body c.body_lt (ground arith))
    ∙ chain_end fuel e2 t.tail (ground arith)
    ∙ ap some (free_desc_taken e2 t.tail c.tail_lt (ground arith))

-- Behind the sleep virt_disk_rw frees exactly the three descriptors of its chain, whatever became of
-- the others meanwhile: free_chain ends, and the flags of the three are 1 and all others as before.
pub finish-freed :
    (e : Disk) (t : Three)
    → Chained e t
    → (f : Disk) × (finish e t.head ≡ some f) × ((j : ℕ) → f.free j ≡ freed e t j)
unfolding finish
finish-freed e t c =
    let e' : Disk = record e {
      info = update e.info t.head (record { buf = none; state = (e.info t.head).state });
    } in
    let c' : Chained e' t = record {
      head_lt = c.head_lt;
      body_lt = c.body_lt;
      tail_lt = c.tail_lt;
      head_body = c.head_body;
      head_tail = c.head_tail;
      body_tail = c.body_tail;
      head_taken = c.head_taken;
      body_taken = c.body_taken;
      tail_taken = c.tail_taken;
      head_next = c.head_next;
      to_body = c.to_body;
      body_next = c.body_next;
      to_tail = c.to_tail;
      tail_end = c.tail_end;
    } in
    (
      released (released (released e' t.head) t.body) t.tail,
      free_chain-three e' t 5 c',
      λ j. ground arith,
    )
