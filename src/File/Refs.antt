-- ===== src/File/Refs.antt =====
-- The reference counts of src/kernel/file.c under the system calls dup and close.
use halo_os.Base.{
  ℕ, zero, suc, ◌+◌, ◌-◌, ◌≤◌, ◌<◌, ◌≡◌, ◌≢◌, refl, sym, ◌∙◌, true, false, Option, none, some, List,
  [], ◌∷◌, ltb, ◌==◌, if◌then◌else◌, set, get_elem?, arith, Bool-cases, inl, inr, some_inj,
  from_here, ==_refl, length, get_elem?-set_self, get_elem?-set_ne,
}
use halo_os.Base.Array.{update}
use halo_os.Base.Int.{ℤ, pos, negsuc}
use halo_os.Base.Outcome.{Outcome, ok, panic}
use halo_os.File.{
  Files, openfile, fileclose, filedup, to_int, argraw, argint, lookup_fd, argfd, find_fd, fdalloc,
  dup_into, dup_fd, sys_dup, close_fd, sys_close, inode_of,
}

abbrev pub one : ℕ → Option ℕ → ℕ
one f none = 0
one f (some g) = if g == f then 1 else 0

-- How many descriptors lead to the file.
abbrev pub count : ℕ → List (Option ℕ) → ℕ
count f [] = 0
count f (o ∷ os) = one f o + count f os

-- The reference count of each file is the number of its descriptors, in this process and elsewhere.
abbrev pub Refs : (others : ℕ → ℕ) → Files → Type 0
Refs others s = (f : ℕ) → (s.files f).ref ≡ count f s.openfs + others f

count-set :
    (f : ℕ) (os : List (Option ℕ)) (i : ℕ) (o o' : Option ℕ)
    → get_elem? os i ≡ some o
    → count f (set os i o') + one f o ≡ count f os + one f o'
count-set f [] i o o' h = cc
count-set f (x ∷ os) zero o o' h = rw (some_inj x o h) (omega arith)
count-set f (x ∷ os) (suc i) o o' h = omega (arith, count-set f os i o o' h)

-- The descriptor leads to the file.
abbrev pub IsOpen : List (Option ℕ) → ℤ → ℕ → Type 0
IsOpen os (negsuc fd) f = ⊥
IsOpen os (pos fd) f = (fd < openfile) × (get_elem? os fd ≡ some (some f))

-- lookup_fd finds the file of an open descriptor, and fails on every other.
abbrev Found : List (Option ℕ) → ℤ → Option (ℕ × ℕ) → Type 0
Found os fd none = (f : ℕ) → IsOpen os fd f → ⊥
Found os fd (some (n, f)) = IsOpen os fd f × (n < openfile) × (get_elem? os n ≡ some (some f))

lookup_fd-Found : (os : List (Option ℕ)) (fd : ℤ) → Found os fd (lookup_fd os fd)
unfolding lookup_fd
lookup_fd-Found os (negsuc fd) = λ f h. h
lookup_fd-Found os (pos fd) = go (get_elem? os fd) refl
  where
    go :
        (r : Option (Option ℕ))
        → get_elem? os fd ≡ r
        → Found os
            (pos fd)
            (elim r [ some (some f) ↦ if ltb fd openfile then some (fd, f) else none | _ ↦ none ])
    go none e = λ f h. cc (e, h.1)
    go (some none) e = λ f h. cc (e, h.1)
    go (some (some f)) e = elim (Bool-cases (ltb fd openfile)) [
      | inl lt ↦ rw lt ((ground arith, e), ground arith, e)
      | inr ge ↦ rw ge (λ f h. ground (arith, h.0))
    ]

-- What find_fd finds is the lowest free descriptor from `fd` on.
abbrev LowestFd : (n fd : ℕ) → List (Option ℕ) → Option ℕ → Type 0
LowestFd n fd os none = (i : ℕ) → fd ≤ i → i < fd + n → get_elem? os i ≢ some none
LowestFd n fd os (some k) =
    (get_elem? os k ≡ some none)
    × (fd ≤ k)
    × (k < fd + n)
    × ((i : ℕ) → fd ≤ i → i < k → get_elem? os i ≢ some none)

find_fd-LowestFd : (n fd : ℕ) (os : List (Option ℕ)) → LowestFd n fd os (find_fd n fd os)
unfolding find_fd
find_fd-LowestFd zero fd os = λ i lo hi. absurd (omega arith)
find_fd-LowestFd (suc n) fd os =
    go (get_elem? os fd) refl (find_fd n (fd + 1) os) (find_fd-LowestFd n (fd + 1) os)
  where
    later :
        (r : Option (Option ℕ))
        → get_elem? os fd ≡ r
        → r ≢ some none
        → (rest : Option ℕ) → LowestFd n (fd + 1) os rest
        → LowestFd (suc n) fd os rest
    later r e ne none h = λ i lo hi.
        from_here (λ j. get_elem? os j ≢ some none) fd i (λ x. ne (sym e ∙ x)) lo
          (λ le. h i (omega arith) (omega arith))
    later r e ne (some k) (at, lo, hi, low) = (
      at,
      omega arith,
      omega arith,
      λ i lo' hi'.
          from_here (λ j. get_elem? os j ≢ some none) fd i (λ x. ne (sym e ∙ x)) lo'
            (λ le. low i (omega arith) hi'),
    )

    go :
        (r : Option (Option ℕ))
        → get_elem? os fd ≡ r
        → (rest : Option ℕ) → LowestFd n (fd + 1) os rest
        → LowestFd (suc n) fd os (elim r [ some none ↦ some fd | _ ↦ rest ])
    go none e rest h = later none e (λ x. cc) rest h
    go (some none) e rest h = (e, omega arith, omega arith, λ i lo hi. absurd (omega arith))
    go (some (some f)) e rest h = later (some (some f)) e (λ x. cc) rest h

-- What sys_dup of the descriptor `arg` comes to: the lowest free descriptor now leads to the file of
-- `arg`, the others are as before, and the counts are right; or the call returns -1 and changes
-- nothing, and either `arg` is not open or no descriptor is free.
abbrev pub Dups : (others : ℕ → ℕ) → ℤ → Files → Outcome (Option ℕ × Files) → Type 0
Dups others arg s panic = ⊥
Dups others arg s (ok (none, s')) =
    (s' ≡ s)
    × ((f : ℕ) → IsOpen s.openfs arg f → (i : ℕ) → i < openfile → get_elem? s.openfs i ≢ some none)
Dups others arg s (ok (some fd, s')) =
    (get_elem? s.openfs fd ≡ some none)
    × (fd < openfile)
    × ((i : ℕ) → i < fd → get_elem? s.openfs i ≢ some none)
    × ((f : ℕ) × IsOpen s.openfs arg f
        × (get_elem? s'.openfs fd ≡ some (some f))
        × (0 < (s.files f).ref)
        × (s'.files ≡ update s.files f (record (s.files f) { ref = (s.files f).ref + 1 })))
    × ((i : ℕ) → i ≢ fd → get_elem? s'.openfs i ≡ get_elem? s.openfs i)
    × Refs others s'

-- What sys_close comes to: the counts are right, the descriptor is free, and the inode of the file
-- is put exactly when the last reference goes; or the call returns -1 and changes nothing.
abbrev pub Closes : (others : ℕ → ℕ) → Files → Outcome (Option (Option ℕ) × Files) → Type 0
Closes others s panic = ⊥
Closes others s (ok (none, s')) = s' ≡ s
Closes others s (ok (some ip, s')) =
    (fd : ℕ) × (f : ℕ) × (get_elem? s.openfs fd ≡ some (some f))
    × (get_elem? s'.openfs fd ≡ some none)
    × (ip ≡ (if (s.files f).ref == 1 then inode_of (s.files f) else none))
    × Refs others s'

-- An open descriptor counts.
count-pos : (os : List (Option ℕ)) (fd f : ℕ) → get_elem? os fd ≡ some (some f) → 0 < count f os
count-pos [] fd f h = cc
count-pos (x ∷ os) zero f h = rw (some_inj x (some f) h, ==_refl f) (omega arith)
count-pos (x ∷ os) (suc fd) f h = omega (arith, count-pos os fd f h)

in_range : (os : List (Option ℕ)) (i : ℕ) (o : Option ℕ) → get_elem? os i ≡ some o → i < length os
in_range [] i o h = cc
in_range (x ∷ os) zero o h = omega arith
in_range (x ∷ os) (suc i) o h = omega (arith, in_range os i o h)

module _ (others : ℕ → ℕ) (s : Files) (r : Refs others s) where
  ref-pos : (fd f : ℕ) → get_elem? s.openfs fd ≡ some (some f) → 0 < (s.files f).ref
  ref-pos fd f at = omega (arith, r f, count-pos s.openfs fd f at)

  dup_into-Dups :
      (arg : ℤ) (fd f : ℕ)
      → IsOpen s.openfs arg f
      → get_elem? s.openfs fd ≡ some (some f)
      → (o : Option ℕ) → LowestFd openfile 0 s.openfs o
      → Dups others arg s
          (dup_into s f (elim o [ none ↦ none | some k ↦ some (k, set s.openfs k (some f)) ]))
  unfolding dup_into filedup
  dup_into-Dups arg fd f is_open at none low = (refl, λ g h i lt. low i (omega arith) lt)
  dup_into-Dups arg fd f is_open at (some k) (free, lo, hi, low) =
      let pos_ref = ref-pos fd f at in
      let live : ltb (s.files f).ref 1 ≡ false = ground arith in
      rw live (
        free,
        hi,
        λ i lt. low i (omega arith) lt,
        (
          f,
          is_open,
          get_elem?-set_self s.openfs k (some f) (in_range s.openfs k none free),
          pos_ref,
          refl,
        ),
        λ i ne. get_elem?-set_ne s.openfs k i (some f) (λ e. ne (sym e)),
        λ g. ground (arith, r g, r f, count-set g s.openfs k none (some f) free),
      )

  dup_fd-Dups :
      (arg : ℤ) (o : Option (ℕ × ℕ)) → Found s.openfs arg o → Dups others arg s (dup_fd s o)
  unfolding dup_fd fdalloc
  dup_fd-Dups arg none found = (refl, λ f h. absurd (found f h))
  dup_fd-Dups arg (some (fd, f)) (is_open, lt, at) =
      dup_into-Dups arg fd f is_open at (find_fd openfile 0 s.openfs)
        (find_fd-LowestFd openfile 0 s.openfs)

  close_fd-Closes :
      (arg : ℤ) (o : Option (ℕ × ℕ)) → Found s.openfs arg o → Closes others s (close_fd s o)
  unfolding close_fd fileclose
  close_fd-Closes arg none found = refl
  close_fd-Closes arg (some (fd, f)) (is_open, lt, at) =
      let pos_ref = ref-pos fd f at in
      let live : ltb (s.files f).ref 1 ≡ false = ground arith in
      let free = get_elem?-set_self s.openfs fd none (in_range s.openfs fd (some f) at) in
      elim (Bool-cases ((s.files f).ref == 1)) [
        | inl last ↦
            let e : ltb 0 ((s.files f).ref - 1) ≡ false = ground arith in
            rw (live, e)
              (
                fd,
                f,
                at,
                free,
                rw last refl,
                λ g. ground (arith, r g, r f, count-set g s.openfs fd (some f) none at),
              )
        | inr more ↦
            let e : ltb 0 ((s.files f).ref - 1) ≡ true = ground arith in
            rw (live, e)
              (
                fd,
                f,
                at,
                free,
                rw more refl,
                λ g. ground (arith, r g, r f, count-set g s.openfs fd (some f) none at),
              )
      ]

-- While the reference count of every file is the number of its descriptors, sys_dup never panics,
-- and keeps this so. Either it makes the lowest free descriptor, one of the 16, lead to the file of
-- the open descriptor that its argument is, counts one more reference of that file and changes no
-- other field of a file, and leaves the other descriptors as they are; or it returns -1 and changes
-- nothing, and then its argument is no open descriptor or none of the 16 is free.
pub sys_dup-Dups :
    (others : ℕ → ℕ) (regs : ℕ → ℕ) (s : Files)
    → Refs others s
    → Dups others (to_int (regs 0)) s (sys_dup regs s)
unfolding sys_dup argfd argint argraw
sys_dup-Dups others regs s r =
    dup_fd-Dups others s r (to_int (regs 0)) (lookup_fd s.openfs (to_int (regs 0)))
      (lookup_fd-Found s.openfs (to_int (regs 0)))

-- While the reference count of every file is the number of its descriptors, sys_close never panics,
-- and keeps this so: either it frees an open descriptor and puts the inode of the file exactly when
-- that was the last reference, or it changes nothing.
pub sys_close-Closes :
    (others : ℕ → ℕ) (regs : ℕ → ℕ) (s : Files) → Refs others s → Closes others s (sys_close regs s)
unfolding sys_close argfd argint argraw
sys_close-Closes others regs s r =
    close_fd-Closes others s r (to_int (regs 0)) (lookup_fd s.openfs (to_int (regs 0)))
      (lookup_fd-Found s.openfs (to_int (regs 0)))
