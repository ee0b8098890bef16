-- ===== src/Fs/Content/Mapping.antt =====
-- The addresses that bmap of src/kernel/fs.c returns.
use halo_os.Base.{ℕ, ◌<◌, ◌≡◌, ◌≢◌, refl, true, false, ◌==◌, arith, lt→ltb}
use halo_os.Base.Outcome.{Outcome, ok, panic}
use halo_os.Fs.Layout.{Superblock, Blocks, ndirect}
use halo_os.Fs.Dinode.{Inode}
use halo_os.Fs.Bitmap.Alloc.{used, marked}
use halo_os.Fs.Content.{direct, bmap}

pub bmap-direct :
    (sb : Superblock) (ip : Inode) (d : Blocks) (n : ℕ)
    → n < ndirect
    → ip.addrs n ≢ 0
    → bmap sb ip d n ≡ ok (ip.addrs n, ip, d)
unfolding bmap direct
bmap-direct sb ip d n lt there =
    let z : (ip.addrs n == 0) ≡ false = ground arith in rw (lt→ltb n ndirect lt, z) refl

-- bmap of a direct block.
abbrev pub Maps : Superblock → Inode → Blocks → ℕ → Outcome (ℕ × Inode × Blocks) → Type 0
Maps sb ip d n panic = (ip.addrs n ≡ 0) × ((j : ℕ) → j < sb.size → used sb d j ≡ true)
Maps sb ip d n (ok (a, ip', e)) =
    (ip'.addrs n ≡ a)
    × (ip'.size ≡ ip.size)
    × ((i : ℕ) → i ≢ n → ip'.addrs i ≡ ip.addrs i)
    × (ip.addrs n ≢ 0 → (a ≡ ip.addrs n) × (e ≡ d))
    × (ip.addrs n ≡ 0
        → (a < sb.size)
          × (used sb d a ≡ false)
          × ((j : ℕ) → j < a → used sb d j ≡ true)
          × (e ≡ marked sb d a))
