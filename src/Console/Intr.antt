-- ===== src/Console/Intr.antt =====
-- consoleintr of src/kernel/console.c against a line editor on two lists.
use halo_os.Base.{
  ℕ, ◌+◌, ◌%◌, ◌<◌, ◌≡◌, ◌≢◌, refl, sym, ap, ap₂, ◌∙◌, Bool, true, false, not, ◌&&◌, ◌||◌, [], ◌∷◌,
  ◌++◌, arith, ltb, ◌==◌, if◌then◌else◌, set, length, length-set, Bool-cases, inl, inr, ne_of_==,
  ==_iff, ltb→lt, ◌⊎◌,
}
use halo_os.Base.Window.{
  window, window-congr, window-add, window-set_out, window-snoc, length-window,
}
use halo_os.Console.{
  Cons, input_max, ctrl_u, ctrl_h, ctrl_d, newline, uint_add, uint_sub, stored, erase_one,
  kill_line, put, commit, consoleintr,
}
use halo_os.Console.View.{
  ready, used, committed, editing, IsValid, drop_last, Editor, add_char, type_char, view,
  Clean-append, drop_last-append, editing-split, erase_one-IsValid, editing-nil, kill_line-Killed,
}

module _ (s : Cons) (c : ℕ) (v : IsValid s) (room : used s < input_max) where
  committed-put : committed (put s c) ≡ committed s
  unfolding put
  committed-put =
      window-set_out s.buf input_max s.r (ready s) (used s) c (s.e % input_max) v.order room
        (omega arith)

  editing-put : editing (put s c) ≡ editing s ++ (c ∷ [])
  unfolding put
  editing-put =
      let e : uint_sub (uint_add s.e 1) s.w ≡ uint_sub s.e s.w + 1 = omega arith in
      ap (window (set s.buf (s.e % input_max) c) input_max s.w) e
      ∙ window-snoc s.buf input_max s.w (uint_sub s.e s.w) c (s.e % input_max) (omega arith)
          (omega arith) (omega arith)

  put-IsValid : c ≢ newline → IsValid (put s c)
  unfolding put
  put-IsValid ne = record {
    r_lt = v.r_lt;
    w_lt = v.w_lt;
    e_lt = omega arith;
    size = length-set s.buf (s.e % input_max) c ∙ v.size;
    order = omega arith;
    fits = omega arith;
    clean = rw editing-put (Clean-append (editing s) c v.clean ne);
  }

  -- The state in which what was typed has become input, and nothing is being edited.
  abbrev committed_put : Cons
  committed_put = record (put s c) { w = (put s c).e; wakeups = (put s c).wakeups + 1 }

  committed_put-IsValid : IsValid committed_put
  unfolding put window
  committed_put-IsValid =
      let z : uint_sub (uint_add s.e 1) (uint_add s.e 1) ≡ 0 = omega arith in
      record {
        r_lt = v.r_lt;
        w_lt = omega arith;
        e_lt = omega arith;
        size = length-set s.buf (s.e % input_max) c ∙ v.size;
        order = omega arith;
        fits = omega arith;
        clean = rw z tt;
      }

  editing-committed_put : editing committed_put ≡ []
  unfolding put
  editing-committed_put = editing-nil committed_put committed_put-IsValid refl

  committed-committed_put : committed committed_put ≡ committed s ++ (editing s ++ (c ∷ []))
  unfolding put window
  committed-committed_put =
      let b = (put s c).buf in
      let k = uint_sub (put s c).e s.w in
      let e : uint_sub (put s c).e s.r ≡ ready s + k = omega arith in
      ap (window b input_max s.r) e
      ∙ window-add b input_max s.r (ready s) k
      ∙ ap (λ l. window b input_max s.r (ready s) ++ l)
          (window-congr b input_max (s.r + ready s) s.w k (omega arith))
      ∙ ap₂ ◌++◌ committed-put editing-put

-- What a call must leave: a valid state that shows the given editor.
abbrev pub Shows : Editor → Cons → Type 0
Shows v s = IsValid s × (committed s ≡ v.lines) × (editing s ≡ v.line)

used-lengths : (s : Cons) → IsValid s → used s ≡ length (committed s) + length (editing s)
used-lengths s v = omega (
  arith,
  length-window s.buf input_max s.r (ready s),
  length-window s.buf input_max s.w (uint_sub s.e s.w),
)

-- The code's test for a full buffer is the editor's.
full_test :
    (s : Cons) (c : ℕ)
    → IsValid s
    → used s < input_max
    → ((put s c).e == uint_add (put s c).r input_max)
      ≡ (length (committed s) + length (editing s) + 1 == input_max)
unfolding put
full_test s c v room = ground (arith, used-lengths s v)

commit-Shows :
    (s : Cons) (c : ℕ)
    → IsValid s
    → used s < input_max
    → Shows (add_char (view s) c) (commit (put s c) c)
unfolding commit
commit-Shows s c v room = rw (full_test s c v room) (
    go (c == newline || c == ctrl_d) refl
      (length (committed s) + length (editing s) + 1 == input_max))
  where
    keep :
        c ≢ newline → Shows (record { lines = committed s; line = editing s ++ (c ∷ []) }) (put s c)
    keep ne = (put-IsValid s c v room ne, committed-put s c v room, editing-put s c v room)

    line :
        Shows
          (record { lines = committed s ++ (editing s ++ (c ∷ [])); line = [] })
          (committed_put s c v room)
    line = (
      committed_put-IsValid s c v room,
      committed-committed_put s c v room,
      editing-committed_put s c v room,
    )

    go :
        (a : Bool)
        → (c == newline || c == ctrl_d) ≡ a
        → (b : Bool)
        → Shows
            (if a || b
              then record { lines = committed s ++ (editing s ++ (c ∷ [])); line = [] }
              else record { lines = committed s; line = editing s ++ (c ∷ []) })
            (if a || b then committed_put s c v room else put s c)
    go true e b = line
    go false e true = line
    go false e false = keep (ground arith)

-- One received character does to the two lists of a valid state what it does to the line editor:
-- C('U') drops the line, C('H') and DEL drop its last character, any other character but NUL is
-- appended while there is room (CR as a newline), and a newline, C('D') or a full buffer makes the
-- line input. The state stays valid.
pub consoleintr-Shows :
    (s : Cons) (c : ℕ) → IsValid s → Shows (type_char (view s) c) (consoleintr s c)
unfolding consoleintr
consoleintr-Shows s c v =
    let e : ltb (length (committed s) + length (editing s)) input_max ≡ ltb (used s) input_max =
      ap (λ n. ltb n input_max) (sym (used-lengths s v)) in
    rw e (
      go (c == ctrl_u) (c == ctrl_h || c == 127) (not (c == 0))
        (Bool-cases (ltb (used s) input_max)))
  where
    killed : Shows (record { lines = committed s; line = [] }) (kill_line input_max s)
    killed = kill_line-Killed input_max s v (omega arith)

    erased :
        (b : Bool)
        → (s.e == s.w) ≡ b
        → Shows
            (record { lines = committed s; line = drop_last (editing s) })
            (if not b then erase_one s else s)
    erased true e =
        let none_left = editing-nil s v ((==_iff s.e s.w).0 e) in
        (v, refl, none_left ∙ ap drop_last (sym none_left))
    erased false e =
        let ne = ne_of_== s.e s.w e in
        (
          erase_one-IsValid s v ne,
          unfold erase_one in refl,
          sym (ap drop_last (editing-split s v ne) ∙ drop_last-append (editing (erase_one s)) _),
        )

    go :
        (a b n : Bool)
        → (ltb (used s) input_max ≡ true) ⊎ (ltb (used s) input_max ≡ false)
        → Shows
            (if a
              then record { lines = committed s; line = [] }
              else if b
              then record { lines = committed s; line = drop_last (editing s) }
              else if n && ltb (used s) input_max
              then add_char (view s) (stored c)
              else view s)
            (if a
              then kill_line input_max s
              else if b
              then if not (s.e == s.w) then erase_one s else s
              else if n && ltb (used s) input_max
              then commit (put s (stored c)) (stored c)
              else s)
    go true b n r = killed
    go false true n r = erased (s.e == s.w) refl
    go false false false r = (v, refl, refl)
    go false false true (inl lt) =
        rw lt (commit-Shows s (stored c) v (ltb→lt (used s) input_max lt))
    go false false true (inr ge) = rw ge (v, refl, refl)
