-- ===== src/Fs/Icache.antt =====
-- The inode cache of src/kernel/fs.c: iget, idup and iput. An inode is its index in
-- `inodecache.inodes`. The count `ref` is an `int`, kept as its 32 bits.
pub mod Unique
mod Tests
use halo_os.Base.{
  ℕ, zero, suc, ◌+◌, ◌-◌, ◌%◌, ◌^◌, Bool, true, false, not, ◌&&◌, Option, none, some, ltb, ◌==◌,
  if◌then◌else◌,
}
use halo_os.Base.Array.{update}
use halo_os.Base.Outcome.{Outcome, ok, panic, ◌>>=◌}
use halo_os.Fs.Layout.{Superblock, Blocks}
use halo_os.Fs.Dinode.{Inode, iupdate}
use halo_os.Fs.Content.{itrunc}

abbrev pub inodes : ℕ
inodes = 32

-- `struct inode`: where it is from, and its fields from the disk
pub record Cached : Type 0 where
  pub dev : ℕ
  pub inum : ℕ
  pub ref : ℕ
  pub vaild : Bool
  pub ip : Inode

-- `i->ref > 0 && i->dev == dev && i->inum == inum`
abbrev pub is_live : Cached → Bool
is_live i = ltb 0 i.ref && ltb i.ref (2 ^ 31)

abbrev pub is_inode : (dev inum : ℕ) → Cached → Bool
is_inode dev inum i = is_live i && ((i.dev == dev) && (i.inum == inum))

-- What the loop of iget finds: the inode itself, or a free entry, if there is one.
pub data Slot : Type 0 where
  hit : ℕ → Slot
  miss : Option ℕ → Slot

-- `if(i->ref == 0 && r == 0) r = i;`
abbrev pub or_free : Option ℕ → ℕ → Cached → Option ℕ
or_free (some r) i e = some r
or_free none i e = if e.ref == 0 then some i else none

-- The loop, with `n` rounds left.
find_slot : (n i : ℕ) → (dev inum : ℕ) → (r : Option ℕ) → (ℕ → Cached) → Slot
find_slot zero i dev inum r c = miss r
find_slot (suc n) i dev inum r c =
    let rest = find_slot n (i + 1) dev inum (or_free r i (c i)) c in
    if is_inode dev inum (c i) then hit i else rest

abbrev pub ref_add : Cached → ℕ → Cached
ref_add e k = record e { ref = (e.ref + k) % 2 ^ 32 }

unfoldable pub iget : (ℕ → Cached) → (dev inum : ℕ) → Outcome (ℕ × (ℕ → Cached))
unfolding find_slot
iget c dev inum = elim (find_slot inodes 0 dev inum none c) [
  | hit i ↦ ok (i, update c i (ref_add (c i) 1))
  | miss none ↦ panic
  | miss (some i) ↦
      ok (i, update c i (record (c i) { dev = dev; inum = inum; ref = 1; vaild = false }))
]

pub idup : Cached → Cached
idup e = ref_add e 1

-- The last reference to an inode without links: its blocks are freed, and its type becomes 0.
drop_file : Superblock → Cached → Blocks → Outcome (Cached × Blocks)
drop_file sb e d = itrunc sb e.inum e.ip d >>= λ (ip, d1).
    let gone : Inode = record ip { kind = 0 } in
    ok (record e { ip = gone; vaild = false }, iupdate sb e.inum gone d1)

unfoldable pub iput : Superblock → Cached → Blocks → Outcome (Cached × Blocks)
unfolding drop_file
iput sb e d =
    (if (e.ref == 1) && (e.vaild && (e.ip.nlink == 0)) then drop_file sb e d else ok (e, d))
    >>= λ (e1, d1). ok (ref_add e1 (2 ^ 32 - 1), d1)
