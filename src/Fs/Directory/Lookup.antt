-- ===== src/Fs/Directory/Lookup.antt =====
-- inodeByName of src/kernel/fs.c finds the first entry with the name.
use halo_os.Base.{
  ℕ, ◌+◌, ◌*◌, ◌/◌, ◌≤◌, ◌<◌, ◌≡◌, ◌≢◌, refl, sym, ap, ◌∙◌, Bool, true, false, ◌⊎◌, Option, none,
  some, List, arith, inl, inr,
}
use halo_os.Base.Int.{ℤ, pos, negsuc}
use halo_os.Base.Memory.{Mem}
use halo_os.Base.Outcome.{Outcome, ok, ◌>>=◌}
use halo_os.Util.{strncmp}
use halo_os.Util.Move.{inside}
use halo_os.Util.Compare.{name_of, strncmp-zero_iff}
use halo_os.Fs.Layout.{Superblock, Blocks, dirsiz}
use halo_os.Fs.Dinode.{Inode}
use halo_os.Fs.Icache.{Cached, iget}
use halo_os.Fs.Directory.{dir_loop, dirent_size, is_zero, is_named, by_inum, inode_by_name}
use halo_os.Fs.Directory.Entry.{entry_inum, entry_name, name_of-same}
use halo_os.Fs.Directory.Scan.{OneBlock, Holds, Scans, with_entry, dir_loop-Scans, Holds-with_entry}

is_zero_iff : (z : ℤ) → is_zero z ≡ true → z ≡ pos 0
is_zero_iff (pos n) h = let e : n ≡ 0 = ground arith in ap pos e
is_zero_iff (negsuc n) h = cc

-- What inodeByName is to find among `n` entries.
abbrev pub Finds :
    (bytes : ℕ → ℕ)
    → (n : ℕ) → (name : List ℕ) → (ℕ → Cached)
    → (dev : ℕ) → Inode
    → Blocks
    → Outcome (Option ℕ × (ℕ → Cached) × Inode × Blocks)
    → Type 0
Finds bytes n name c dev ip d r =
    ((k : ℕ) × (k < n)
      × (entry_name bytes k ≡ name)
      × ((j : ℕ) → j < k → entry_name bytes j ≢ name)
      × (r ≡ (iget c dev (entry_inum bytes k) >>= λ (i, c'). ok (some i, c', ip, d))))
    ⊎ (((j : ℕ) → j < n → entry_name bytes j ≢ name) × (r ≡ ok (none, c, ip, d)))

module _ (sb : Superblock) (ip : Inode) (d : Blocks) (a n name de : ℕ) (m0 : Mem)
    (apart : (name + dirsiz ≤ de) ⊎ (de + dirent_size ≤ name)) where
  string_kept :
      (m : Mem)
      → ((b : ℕ) → inside de 16 b ≡ false → m b ≡ m0 b)
      → name_of m name dirsiz ≡ name_of m0 name dirsiz
  string_kept m same = name_of-same m m0 name name dirsiz (λ j lj. same (name + j) (go apart j lj))
    where
      go :
          (name + dirsiz ≤ de) ⊎ (de + dirent_size ≤ name)
          → (j : ℕ) → j < dirsiz
          → inside de 16 (name + j) ≡ false
      go (inl h) j lj = ground arith
      go (inr h) j lj = ground arith

  held_name :
      (i : ℕ) (m : Mem) → Holds (d a) de i m0 m → name_of m (de + 2) dirsiz ≡ entry_name (d a) i
  held_name i m h =
      name_of-same m (d a) (de + 2) (16 * i + 2) dirsiz
        (λ j lj. ap m (omega arith) ∙ h.entry (2 + j) (omega arith) ∙ ap (d a) (omega arith))

  is_named_iff :
      (i : ℕ) (m : Mem)
      → Holds (d a) de i m0 m
      → (is_named name de m ≡ true → entry_name (d a) i ≡ name_of m0 name dirsiz)
        × (entry_name (d a) i ≡ name_of m0 name dirsiz → is_named name de m ≡ true)
  is_named_iff i m h = (
    λ t.
        sym (held_name i m h)
        ∙ sym (
            (strncmp-zero_iff m name (de + 2) dirsiz).0
              (is_zero_iff (strncmp m name (de + 2) dirsiz) t))
        ∙ string_kept m h.outside,
    λ e. ap is_zero (
        (strncmp-zero_iff m name (de + 2) dirsiz).1
          (string_kept m h.outside ∙ sym e ∙ sym (held_name i m h))),
  )

  Bool-of_iff : (x y : Bool) → (x ≡ true → y ≡ true) → (y ≡ true → x ≡ true) → x ≡ y
  Bool-of_iff true y f g = sym (f refl)
  Bool-of_iff false true f g = g refl
  Bool-of_iff false false f g = refl

  module _ (one : OneBlock sb ip d a n) where
    -- Whether entry `i` has the name.
    abbrev has_name : ℕ → Bool
    has_name i = is_named name de (with_entry sb ip d a n de one m0 i)

    held : (i : ℕ) → i < n → Holds (d a) de i m0 (with_entry sb ip d a n de one m0 i)
    held i lt = Holds-with_entry sb ip d a n de one m0 m0 i lt (λ b h. refl)

    has_name-tests :
        (i : ℕ) (m : Mem) → i < n → Holds (d a) de i m0 m → is_named name de m ≡ has_name i
    has_name-tests i m lt h =
        Bool-of_iff (is_named name de m) (has_name i)
          (λ t.
            (is_named_iff i (with_entry sb ip d a n de one m0 i) (held i lt)).1
              ((is_named_iff i m h).0 t))
          (λ t.
            (is_named_iff i m h).1
              ((is_named_iff i (with_entry sb ip d a n de one m0 i) (held i lt)).0 t))

    not_named : (j : ℕ) → j < n → has_name j ≡ false → entry_name (d a) j ≢ name_of m0 name dirsiz
    not_named j lt no_hit e =
        let t = (is_named_iff j (with_entry sb ip d a n de one m0 j) (held j lt)).1 e in cc

    found :
        (c : ℕ → Cached) (dev : ℕ) (r : Outcome (Bool × ℕ × Inode × Blocks × Mem))
        → Scans sb ip d a n de one (is_named name de) has_name m0 0 r
        → Finds (d a) n (name_of m0 name dirsiz) c dev ip d (r >>= by_inum c dev de)
    unfolding by_inum
    found c dev r (inl (k, le, lt, t, before, m', h, e)) =
        let i0 = h.entry 0 (omega arith) in
        let i1 = h.entry 1 (omega arith) in
        let d0 : de + 0 ≡ de = omega arith in
        let k0 : 16 * k + 0 ≡ 16 * k = omega arith in
        let b0 : m' de ≡ d a (16 * k) = ap m' (sym d0) ∙ i0 ∙ ap (d a) k0 in
        inl (
          k,
          lt,
          (is_named_iff k (with_entry sb ip d a n de one m0 k) (held k lt)).0 t,
          (λ j lj. not_named j (omega arith) (before j (omega arith) lj)),
          rw (e, b0, i1) refl,
        )
    found c dev r (inr (nowhere, m', same, e)) =
        inr ((λ j lj. not_named j lj (nowhere j (omega arith) lj)), rw e refl)

-- inodeByName in a directory whose `n` entries lie in one block that is mapped, with a name apart
-- from its own copy of an entry: iget of the number of the first entry that has the name, or null if
-- none has it; the inode and the blocks are as before.
pub inode_by_name-Finds :
    (sb : Superblock) (ip : Inode) (d : Blocks) (a n name de dev : ℕ) (c : ℕ → Cached) (m : Mem)
    → OneBlock sb ip d a n
    → (name + dirsiz ≤ de) ⊎ (de + dirent_size ≤ name)
    → Finds (d a) n (name_of m name dirsiz) c dev ip d (inode_by_name sb c dev ip d name de m)
unfolding inode_by_name
inode_by_name-Finds sb ip d a n name de dev c m one apart =
    found sb ip d a n name de m apart one c dev
      (dir_loop (is_named name de) sb de (ip.size / dirent_size + 1) 0 ip d m)
      (dir_loop-Scans sb ip d a n de one (is_named name de)
        (has_name sb ip d a n name de m apart one) m
        (has_name-tests sb ip d a n name de m apart one) (ip.size / dirent_size + 1) 0 m
        (omega arith) (omega (arith, one.size)) (λ b h. refl))
