-- ===== src/Fs/Content/Tests.antt =====
-- The files of src/kernel/fs.c on a concrete disk.
use halo_os.Base.{ℕ, ◌+◌, ◌≡◌, ◌<◌, refl, false, none, some, ◌&&◌, leb, arith, ltb, if◌then◌else◌}
use halo_os.Base.Outcome.{ok}
use halo_os.Fs.Bitmap.Tests.{sb, disk}
use halo_os.Fs.Dinode.{Inode, iupdate, load}
use halo_os.Fs.Dinode.RoundTrip.{load-iupdate}
use halo_os.Fs.Content.{bmap, Read, writei, itrunc}
use halo_os.Fs.Content.Reading
use halo_os.Fs.Content.Writing
use halo_os.Fs.Content.Writing.{writei-past_maxfile}
use halo_os.Fs.Content.Stored.{Stores, writei-Stores}
use halo_os.Fs.Layout.{Blocks}

-- A file of 2000 bytes whose first two blocks are 50 and 51.
abbrev file : Inode
file = record {
  kind = 2;
  major = 0;
  minor = 0;
  nlink = 1;
  size = 2000;
  addrs = λ n. if ltb n 2 then 50 + n else 0;
}

test-itrunc :
    itrunc sb 3 (record file { addrs = λ n. 0 }) disk
    ≡ ok (
      record file { addrs = λ n. 0; size = 0 },
      iupdate sb 3 (record file { addrs = λ n. 0; size = 0 }) disk,
    )
unfolding itrunc
test-itrunc = refl

load-iupdate_example :
    let back = load sb 3 (iupdate sb 3 file disk) in
    (back.kind ≡ file.kind)
    × (back.major ≡ file.major)
    × (back.minor ≡ file.minor)
    × (back.nlink ≡ file.nlink)
    × (back.size ≡ file.size)
    × ((a : ℕ) → a < 13 → back.addrs a ≡ file.addrs a)
    × ((n i : ℕ)
        → (n ≡ 32 → (leb 192 i && ltb i 256) ≡ false)
        → iupdate sb 3 file disk n i ≡ disk n i)
load-iupdate_example = load-iupdate sb 3 file disk (record {
  kind_lt = omega arith;
  major_lt = omega arith;
  minor_lt = omega arith;
  nlink_lt = omega arith;
  size_lt = omega arith;
  addrs_lt = λ a lt. ground arith;
})

test-past_maxfile :
    writei halo_os.Fs.Content.Writing.never (λ a. 7) sb 3 file disk 0x4000 1000 24
    ≡ ok (none, file, disk)
test-past_maxfile =
    writei-past_maxfile halo_os.Fs.Content.Writing.never (λ a. 7) sb 3 file disk 0x4000 1000 24
      (omega arith) (omega arith)

writei-Stores_example :
    (ip' : Inode) × (d' : Blocks) × (writei halo_os.Fs.Content.Writing.never
        (λ a. 7)
        sb
        3
        file
        disk
        0x4000
        100
        24
      ≡ ok (some 24, ip', d'))
    × Stores (λ a. 7) sb 3 file disk 0x4000 100 24 50 ip' d'
unfolding bmap halo_os.Fs.Content.direct
writei-Stores_example =
    writei-Stores (λ a. 7) sb 3 file disk 0x4000 100 24 50 (λ e. ground arith) (omega arith)
      (omega arith) (omega arith) refl
