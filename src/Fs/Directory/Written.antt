-- ===== src/Fs/Directory/Written.antt =====
-- The entry that dirlink of src/kernel/fs.c makes, and a block that it is written into.
use halo_os.Base.{
  ℕ, ◌+◌, ◌-◌, ◌*◌, ◌^◌, ◌≤◌, ◌<◌, ◌≡◌, ◌≢◌, refl, ap, ap₂, ◌∙◌, true, false, ◌⊎◌, List, ◌==◌,
  if◌then◌else◌, arith, inl, inr, ==_refl,
}
use halo_os.Base.Memory.{Mem}
use halo_os.Util.{strncpy}
use halo_os.Util.Move.{inside}
use halo_os.Util.Compare.{name_of}
use halo_os.Util.Copy.{name_of-strncpy}
use halo_os.Fs.Layout.{Blocks, dirsiz}
use halo_os.Fs.Dinode.{half}
use halo_os.Fs.Content.{tabulate, store_bytes}
use halo_os.Fs.Directory.{dirent_size, new_entry}
use halo_os.Fs.Content.Stored.{store_bytes-tabulate}
use halo_os.Fs.Directory.Entry.{entry_inum, entry_name, name_of-same}

-- The entry `k` of the block `a` has the number and the name, and the others are as before.
pub record Enters (d d' : Blocks) (a k inum : ℕ) (name : List ℕ) : Type 0 where
  pub number : entry_inum (d' a) k ≡ inum
  pub called : entry_name (d' a) k ≡ name
  pub others :
      (j : ℕ)
      → j ≢ k
      → (entry_inum (d' a) j ≡ entry_inum (d a) j) × (entry_name (d' a) j ≡ entry_name (d a) j)

module _ (m0 : Mem) (path dir : ℕ)
    (apart : (path + dirsiz ≤ dir) ⊎ (dir + dirent_size ≤ path)) where
  -- The bytes of the new entry.
  pub new_entry-parts :
      (m : Mem) (inum : ℕ)
      → inum < 2 ^ 16
      → ((b : ℕ) → inside dir 16 b ≡ false → m b ≡ m0 b)
      → (half (new_entry m dir path inum) dir ≡ inum)
        × (name_of (new_entry m dir path inum) (dir + 2) dirsiz ≡ name_of m0 path dirsiz)
  new_entry-parts m inum small same = (number, called)
    where
      number : half (new_entry m dir path inum) dir ≡ inum
      number =
          let d1 : (dir == dir + 1) ≡ false = ground arith in
          rw (d1, ==_refl dir, ==_refl (dir + 1)) (omega arith)

      far :
          (path + dirsiz ≤ dir) ⊎ (dir + dirent_size ≤ path)
          → (dir + 2 + dirsiz ≤ path) ⊎ (path + dirsiz ≤ dir + 2)
      far (inl h) = inr (omega arith)
      far (inr h) = inl (omega arith)

      out :
          (path + dirsiz ≤ dir) ⊎ (dir + dirent_size ≤ path)
          → (j : ℕ) → j < dirsiz
          → inside dir 16 (path + j) ≡ false
      out (inl h) j lj = ground arith
      out (inr h) j lj = ground arith

      called : name_of (new_entry m dir path inum) (dir + 2) dirsiz ≡ name_of m0 path dirsiz
      called =
          name_of-same (new_entry m dir path inum) (strncpy m (dir + 2) path dirsiz) (dir + 2)
            (dir + 2) dirsiz
            (λ j lj.
              let e : (dir + 2 + j == dir + 1) ≡ false = ground arith in
              let f : (dir + 2 + j == dir) ≡ false = ground arith in rw (e, f) refl)
          ∙ name_of-strncpy m (dir + 2) path dirsiz (far apart)
          ∙ name_of-same m m0 path path dirsiz (λ j lj. same (path + j) (out apart j lj))

-- 16 bytes written over entry `k` of a block.
module _ (d d' : Blocks) (a k dir : ℕ) (m : Mem)
    (e : d' a ≡ store_bytes (d a) (16 * k) (tabulate m dir 16)) where
  byte_of : (b : ℕ) → d' a b ≡ (if inside (16 * k) 16 b then m (dir + (b - 16 * k)) else d a b)
  byte_of b = ap (λ f. f b) e ∙ store_bytes-tabulate (d a) m (16 * k) dir 16 b

  byte_in : (j : ℕ) → j < 16 → d' a (16 * k + j) ≡ m (dir + j)
  byte_in j lj =
      let y : inside (16 * k) 16 (16 * k + j) ≡ true = ground arith in
      let z : 16 * k + j - 16 * k ≡ j = omega arith in byte_of (16 * k + j) ∙ rw (y, z) refl

  byte_out : (i j : ℕ) → i ≢ k → j < 16 → d' a (16 * i + j) ≡ d a (16 * i + j)
  byte_out i j ne lj =
      let y : inside (16 * k) 16 (16 * i + j) ≡ false = ground arith in
      byte_of (16 * i + j) ∙ rw y refl

  pub Enters-bytes :
      (inum : ℕ) (name : List ℕ)
      → half m dir ≡ inum
      → name_of m (dir + 2) dirsiz ≡ name
      → Enters d d' a k inum name
  Enters-bytes inum name en ec = record {
    number =
        ap₂ (λ x y. x + 256 * y)
          (ap (d' a) {x = 16 * k} {y = 16 * k + 0} (omega arith)
            ∙ byte_in 0 (omega arith)
            ∙ ap m (omega arith))
          (byte_in 1 (omega arith))
        ∙ en;
    called =
        name_of-same (d' a) m (16 * k + 2) (dir + 2) dirsiz
          (λ j lj. ap (d' a) (omega arith) ∙ byte_in (2 + j) (omega arith) ∙ ap m (omega arith))
        ∙ ec;
    others = λ j ne. (
      ap₂ (λ x y. x + 256 * y)
          (ap (d' a) {x = 16 * j} {y = 16 * j + 0} (omega arith)
            ∙ byte_out j 0 ne (omega arith)
            ∙ ap (d a) (omega arith))
          (byte_out j 1 ne (omega arith)),
      name_of-same (d' a) (d a) (16 * j + 2) (16 * j + 2) dirsiz (λ l ll.
          ap (d' a) (omega arith) ∙ byte_out j (2 + l) ne (omega arith) ∙ ap (d a) (omega arith)),
    );
  }
