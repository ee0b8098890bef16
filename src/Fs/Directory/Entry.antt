-- ===== src/Fs/Directory/Entry.antt =====
-- The entries in the bytes of a directory's block, and a copy of one in memory.
use halo_os.Base.{ℕ, zero, suc, ◌+◌, ◌*◌, ◌<◌, ◌≡◌, refl, sym, ap, ◌∙◌, List, arith}
use halo_os.Base.Memory.{Mem}
use halo_os.Util.Compare.{name_of}
use halo_os.Fs.Layout.{dirsiz}
use halo_os.Fs.Dinode.{half}

-- The number and the name of entry `i`.
abbrev pub entry_inum : (bytes : ℕ → ℕ) → (i : ℕ) → ℕ
entry_inum bytes i = half bytes (16 * i)

abbrev pub entry_name : (bytes : ℕ → ℕ) → (i : ℕ) → List ℕ
entry_name bytes i = name_of bytes (16 * i + 2) dirsiz

-- Two fields with the same bytes hold the same name.
pub name_of-same :
    (m m' : Mem) (p q n : ℕ)
    → ((j : ℕ) → j < n → m (p + j) ≡ m' (q + j))
    → name_of m p n ≡ name_of m' q n
unfolding name_of
name_of-same m m' p q zero h = refl
name_of-same m m' p q (suc n) h =
    let p0 : p + 0 ≡ p = omega arith in
    let q0 : q + 0 ≡ q = omega arith in
    let e : m p ≡ m' q = ap m (sym p0) ∙ h 0 (omega arith) ∙ ap m' q0 in
    let rest =
      name_of-same m m' (p + 1) (q + 1) n
        (λ j lt. ap m (omega arith) ∙ h (suc j) (omega arith) ∙ ap m' (omega arith)) in
    rw (e, rest) refl
