-- ===== src/Util/Copy.antt =====
-- strncpy and safestrcpy: the name that is copied, what is padded, and what is left alone.
use halo_os.Base.{
  ℕ, zero, suc, ◌+◌, ◌-◌, ◌≤◌, ◌<◌, ◌≡◌, refl, ◌⊎◌, false, ◌∷◌, [], ap, arith, ◌==◌, if◌then◌else◌,
  Bool-cases, inl, inr, ==_iff, ◌∙◌, sym,
}
use halo_os.Base.Memory.{Mem, store}
use halo_os.Util.{pad, strncpy, safestrcpy_loop, safestrcpy}
use halo_os.Util.Move.{inside}
use halo_os.Util.Compare.{name_of}

pad_lem : (n s : ℕ) (m : Mem) (a : ℕ) → pad n s m a ≡ (if inside s n a then 0 else m a)
unfolding pad
pad_lem zero s m a = ground arith
pad_lem (suc n) s m a = ground (arith, pad_lem n (s + 1) (store m s 0) a)

-- No byte outside the field is written.
pub strncpy-outside : (m : Mem) (s t n a : ℕ) → inside s n a ≡ false → strncpy m s t n a ≡ m a
unfolding strncpy
strncpy-outside m s t zero a h = refl
strncpy-outside m s t (suc n) a h = ground (
  arith,
  pad_lem n (s + 1) (store m s (m t)) a,
  strncpy-outside (store m s (m t)) (s + 1) (t + 1) n a,
)

-- The name in a field depends on the bytes of the field only.
name_of-agree :
    (m k : Mem) (p n : ℕ)
    → ((a : ℕ) → p ≤ a → a < p + n → m a ≡ k a)
    → name_of m p n ≡ name_of k p n
unfolding name_of
name_of-agree m k p zero h = refl
name_of-agree m k p (suc n) h =
    ground (arith, h p, name_of-agree m k (p + 1) n (λ a lo hi. h a (omega arith) (omega arith)))

-- Two fields of `n` bytes that share none
abbrev pub Apart : (s t n : ℕ) → Type 0
Apart s t n = (s + n ≤ t) ⊎ (t + n ≤ s)

name_of-cons :
    (m : Mem) (p n v : ℕ)
    → m p ≡ v
    → (v == 0) ≡ false
    → name_of m p (suc n) ≡ v ∷ name_of m (p + 1) n
unfolding name_of
name_of-cons m p n v e c = rw (e, c)

name_of-nil : (m : Mem) (p n : ℕ) → m p ≡ 0 → name_of m p n ≡ []
unfolding name_of
name_of-nil m p zero e = refl
name_of-nil m p (suc n) e = rw e

strncpy-step :
    (m : Mem) (s t n : ℕ)
    → (m t == 0) ≡ false
    → strncpy m s t (suc n) ≡ strncpy (store m s (m t)) (s + 1) (t + 1) n
unfolding strncpy
strncpy-step m s t n c = rw c

strncpy-head : (m : Mem) (s t n : ℕ) → strncpy m s t (suc n) s ≡ m t
unfolding strncpy
strncpy-head m s t n = ground (
  arith,
  pad_lem n (s + 1) (store m s (m t)) s,
  strncpy-outside (store m s (m t)) (s + 1) (t + 1) n s,
)

-- A store outside the field leaves its name.
name_of-store :
    (m : Mem) (a v p n : ℕ) → inside p n a ≡ false → name_of (store m a v) p n ≡ name_of m p n
name_of-store m a v p n h = name_of-agree (store m a v) m p n (λ b lo hi. ground arith)

-- strncpy into a field apart from its source leaves there the name that the source holds.
pub name_of-strncpy :
    (m : Mem) (s t n : ℕ) → Apart s t n → name_of (strncpy m s t n) s n ≡ name_of m t n
unfolding name_of
name_of-strncpy m s t zero h = refl
name_of-strncpy m s t (suc n) h = elim (Bool-cases (m t == 0)) [
  | inl z ↦
      let e : m t ≡ 0 = (==_iff (m t) 0).0 z in
      name_of-nil (strncpy m s t (suc n)) s (suc n) (strncpy-head m s t n ∙ e)
      ∙ sym (name_of-nil m t (suc n) e)
  | inr c ↦
      name_of-cons (strncpy m s t (suc n)) s n (m t) (strncpy-head m s t n) c
      ∙ ap (λ l. m t ∷ l)
          (rw (strncpy-step m s t n c) (
            name_of-strncpy (store m s (m t)) (s + 1) (t + 1) n (ground arith)
            ∙ name_of-store m s (m t) (t + 1) n (ground arith)))
      ∙ sym (name_of-cons m t n (m t) refl c)
]

safestrcpy_loop-outside :
    (m : Mem) (s t n a : ℕ) → inside s (suc n) a ≡ false → safestrcpy_loop m s t n a ≡ m a
unfolding safestrcpy_loop
safestrcpy_loop-outside m s t zero a h = ground arith
safestrcpy_loop-outside m s t (suc n) a h =
    ground (arith, safestrcpy_loop-outside (store m s (m t)) (s + 1) (t + 1) n a)

safestrcpy_loop-step :
    (m : Mem) (s t n : ℕ)
    → (m t == 0) ≡ false
    → safestrcpy_loop m s t (suc n) ≡ safestrcpy_loop (store m s (m t)) (s + 1) (t + 1) n
unfolding safestrcpy_loop
safestrcpy_loop-step m s t n c = rw c

safestrcpy_loop-head : (m : Mem) (s t n : ℕ) → safestrcpy_loop m s t (suc n) s ≡ m t
unfolding safestrcpy_loop
safestrcpy_loop-head m s t n =
    ground (arith, safestrcpy_loop-outside (store m s (m t)) (s + 1) (t + 1) n s)

safestrcpy_loop-name :
    (m : Mem) (s t n : ℕ)
    → Apart s t (suc n)
    → name_of (safestrcpy_loop m s t n) s (suc n) ≡ name_of m t n
unfolding name_of
safestrcpy_loop-name m s t zero h =
    name_of-nil (safestrcpy_loop m s t 0) s 1 (unfold safestrcpy_loop in ground arith)
safestrcpy_loop-name m s t (suc n) h = elim (Bool-cases (m t == 0)) [
  | inl z ↦
      let e : m t ≡ 0 = (==_iff (m t) 0).0 z in
      name_of-nil (safestrcpy_loop m s t (suc n)) s (suc (suc n)) (safestrcpy_loop-head m s t n ∙ e)
      ∙ sym (name_of-nil m t (suc n) e)
  | inr c ↦
      name_of-cons (safestrcpy_loop m s t (suc n)) s (suc n) (m t) (safestrcpy_loop-head m s t n) c
      ∙ ap (λ l. m t ∷ l)
          (ap (λ k. name_of k (s + 1) (suc n)) (safestrcpy_loop-step m s t n c)
            ∙ safestrcpy_loop-name (store m s (m t)) (s + 1) (t + 1) n (ground arith)
            ∙ name_of-store m s (m t) (t + 1) n (ground arith))
      ∙ sym (name_of-cons m t n (m t) refl c)
]

safestrcpy-suc : (m : Mem) (s t n : ℕ) → safestrcpy m s t (suc n) ≡ safestrcpy_loop m s t n
unfolding safestrcpy
safestrcpy-suc m s t n =
    let e : suc n - 1 ≡ n = omega arith in let f : (suc n == 0) ≡ false = ground arith in rw (e, f)

-- safestrcpy into a buffer of `n` bytes apart from its source, `n` at least 1, writes only there,
-- and leaves there the first `n - 1` bytes of the source's string, with a NUL behind them.
pub safestrcpy-truncates :
    (m : Mem) (s t n : ℕ)
    → 1 ≤ n
    → Apart s t n
    → (name_of (safestrcpy m s t n) s n ≡ name_of m t (n - 1))
      × ((a : ℕ) → inside s n a ≡ false → safestrcpy m s t n a ≡ m a)
safestrcpy-truncates m s t zero pos_n h = elim pos_n [ ]
safestrcpy-truncates m s t (suc n) pos_n h =
    let e : suc n - 1 ≡ n = omega arith in
    (
      rw (safestrcpy-suc m s t n, e) (safestrcpy_loop-name m s t n h),
      λ a out. rw (safestrcpy-suc m s t n) (safestrcpy_loop-outside m s t n a out),
    )
