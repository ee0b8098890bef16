-- ===== src/Fs/Content.antt =====
-- bmap, readi, writei and itrunc of src/kernel/fs.c: the blocks of an inode and its bytes. Blocks
-- are read and changed through the buffer cache, as in Fs/Bitmap. The copies to and from user
-- memory are an argument, which says at which address either_copyout or either_copyin returns -1.
pub mod Mapping
pub mod Reading
pub mod Writing
pub mod Stored
mod Tests
use halo_os.Base.{
  ℕ, zero, suc, ◌+◌, ◌-◌, ◌*◌, ◌/◌, ◌%◌, ◌^◌, Bool, true, false, not, ◌&&◌, ◌||◌, Option, none,
  some, List, [], ◌∷◌, ◌++◌, ltb, ◌==◌, if◌then◌else◌, min,
}
use halo_os.Base.Array.{update}
use halo_os.Base.Outcome.{Outcome, ok, panic, ◌>>=◌, ◌>>◌, panic_if}
use halo_os.Fs.Layout.{Superblock, Blocks, bsize, ndirect, nindirect, maxfile}
use halo_os.Fs.Dinode.{Inode, word, set_word, iupdate}
use halo_os.Fs.Bitmap.{balloc, bfree}

-- The address of a block, with the inode and the blocks behind the call.
abbrev pub Mapped : Type 0
Mapped = ℕ × Inode × Blocks

-- `if ((addr = ip->addrs[n]) == 0) addr = ip->addrs[n] = balloc(ip->dev);`
direct : Superblock → Inode → Blocks → ℕ → Outcome Mapped
direct sb ip d n =
    if ip.addrs n == 0
    then (do (a, e) ← balloc sb d; ok (a, record ip { addrs = update ip.addrs n a }, e))
    else ok (ip.addrs n, ip, d)

-- The entry `n` of the indirect block `a`.
indirect : Superblock → Inode → Blocks → (a n : ℕ) → Outcome Mapped
indirect sb ip d a n =
    if word (d a) n == 0
    then (do (b, e) ← balloc sb d; ok (b, ip, update e a (set_word (e a) n b)))
    else ok (word (d a) n, ip, d)

unfoldable pub bmap : Superblock → Inode → Blocks → ℕ → Outcome Mapped
unfolding direct indirect
bmap sb ip d n =
    if ltb n ndirect
    then direct sb ip d n
    else if ltb (n - ndirect) nindirect
    then (do (a, ip', e) ← direct sb ip d ndirect; indirect sb ip' e a (n - ndirect))
    else panic

-- The `n` values of `f` from `i` on.
abbrev pub tabulate : (ℕ → ℕ) → (i n : ℕ) → List ℕ
tabulate f i zero = []
tabulate f i (suc n) = f i ∷ tabulate f (i + 1) n

-- What readi returns, `none` for -1, and the bytes that it copied out.
pub record Read : Type 0 where
  pub count : Option ℕ
  pub out : List ℕ
  pub ip : Inode
  pub blocks : Blocks

-- The loop of readi, on fuel: `tot` and `dst` advance, and `off` stays.
read_loop :
    (fails : ℕ → Bool)
    → Superblock
    → (off n : ℕ) → (fuel dst tot : ℕ) → List ℕ
    → Inode
    → Blocks
    → Outcome Read
read_loop fails sb off n zero dst tot out ip d =
    ok (record { count = some tot; out = out; ip = ip; blocks = d })
read_loop fails sb off n (suc fuel) dst tot out ip d =
    if ltb tot n
    then (do
      (a, ip', e) ← bmap sb ip d (off / bsize)
      let m = min (n - tot) (bsize - off % bsize)
      let chunk = tabulate (e a) (off % bsize) m
      let rest = read_loop fails sb off n fuel (dst + m) (tot + m) (out ++ chunk) ip' e
      if fails dst then ok (record { count = none; out = out; ip = ip'; blocks = e }) else rest)
    else ok (record { count = some tot; out = out; ip = ip; blocks = d })

-- A round copies at least one byte, so `n` rounds are enough.
unfoldable pub readi :
    (fails : ℕ → Bool) → Superblock → Inode → Blocks → (dst off n : ℕ) → Outcome Read
unfolding read_loop
readi fails sb ip d dst off n =
    let got = if ltb ip.size ((off + n) % 2 ^ 32) then ip.size - off else n in
    if ltb ip.size off || ltb ((off + n) % 2 ^ 32) off
    then ok (record { count = some 0; out = []; ip = ip; blocks = d })
    else read_loop fails sb off got got dst 0 [] ip d

-- `m` bytes of the source at `src` stored into a block from `o` on.
abbrev pub store_bytes : (ℕ → ℕ) → (o : ℕ) → List ℕ → ℕ → ℕ
store_bytes bytes o [] = bytes
store_bytes bytes o (x ∷ xs) = store_bytes (update bytes o x) (o + 1) xs

-- The loop of writei: `tot`, `off` and `src` advance. A copy that fails is a panic.
write_loop :
    (fails : ℕ → Bool)
    → (source : ℕ → ℕ) → Superblock
    → (n : ℕ) → (fuel off src tot : ℕ) → Inode
    → Blocks
    → Outcome (ℕ × Inode × Blocks)
write_loop fails source sb n zero off src tot ip d = ok (off, ip, d)
write_loop fails source sb n (suc fuel) off src tot ip d =
    if ltb tot n
    then (do
      (a, ip', e) ← bmap sb ip d (off / bsize)
      let m = min (n - tot) (bsize - off % bsize)
      panic_if (fails src)
      let e' = update e a (store_bytes (e a) (off % bsize) (tabulate source src m))
      write_loop fails source sb n fuel (off + m) (src + m) (tot + m) ip' e')
    else ok (off, ip, d)

-- `none` for -1.
unfoldable pub writei :
    (fails : ℕ → Bool)
    → (source : ℕ → ℕ) → Superblock
    → (inum : ℕ) → Inode
    → Blocks
    → (src off n : ℕ) → Outcome (Option ℕ × Inode × Blocks)
unfolding write_loop
writei fails source sb inum ip d src off n =
    if ltb ip.size off || ltb ((off + n) % 2 ^ 32) off
    then ok (none, ip, d)
    else if ltb maxfile ((off + n) % 2 ^ 32)
    then ok (none, ip, d)
    else (do
      (off', ip', e) ← write_loop fails source sb n n off src 0 ip d
      let ip'' : Inode = if ltb ip'.size off' then record ip' { size = off' } else ip'
      ok (some n, ip'', iupdate sb inum ip'' e))

-- `if(ip->addrs[i]) bfree(...)` over the direct blocks, with `n` rounds left
free_direct : Superblock → (n i : ℕ) → Inode → Blocks → Outcome (Inode × Blocks)
free_direct sb zero i ip d = ok (ip, d)
free_direct sb (suc n) i ip d = if ip.addrs i == 0 then free_direct sb n (i + 1) ip d else (do
  e ← bfree sb d (ip.addrs i)
  free_direct sb n (i + 1) (record ip { addrs = update ip.addrs i 0 }) e)

-- The entries of the indirect block `a`, with `n` rounds left
free_entries : Superblock → (a n i : ℕ) → Blocks → Outcome Blocks
free_entries sb a zero i d = ok d
free_entries sb a (suc n) i d =
    if word (d a) i == 0
    then free_entries sb a n (i + 1) d
    else bfree sb d (word (d a) i) >>= free_entries sb a n (i + 1)

-- The indirect block `a`, if there is one: the loop over its entries stops at NDIRECT.
free_indirect : Superblock → (a : ℕ) → Inode → Blocks → Outcome (Inode × Blocks)
free_indirect sb a ip d = if a == 0 then ok (ip, d) else (do
  e1 ← free_entries sb a ndirect 0 d
  e2 ← bfree sb e1 a
  ok (record ip { addrs = update ip.addrs ndirect 0 }, e2))

pub itrunc : Superblock → (inum : ℕ) → Inode → Blocks → Outcome (Inode × Blocks)
unfolding free_direct free_entries free_indirect
itrunc sb inum ip d = do
  (ip1, e1) ← free_direct sb ndirect 0 ip d
  (ip2, e2) ← free_indirect sb (ip1.addrs ndirect) ip1 e1
  let ip3 : Inode = record ip2 { size = 0 }
  ok (ip3, iupdate sb inum ip3 e2)
