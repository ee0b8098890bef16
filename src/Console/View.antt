-- ===== src/Console/View.antt =====
-- The input buffer of src/kernel/console.c seen as two lists: a line editor.
use halo_os.Base.{
  ℕ, zero, suc, ◌+◌, ◌%◌, ◌^◌, ◌≤◌, ◌<◌, ◌≡◌, ◌≢◌, refl, ap, ◌∙◌, true, false, not, ◌&&◌, ◌||◌,
  List, [], ◌∷◌, ◌++◌, arith, ltb, ◌==◌, if◌then◌else◌, length, Bool-cases, inl, inr, ==_of_ne,
  ne_of_==, ==_iff,
}
use halo_os.Base.Window.{get_or, window, window-add}
use halo_os.Console.{
  Cons, input_max, ctrl_u, ctrl_h, ctrl_d, newline, uint_sub, stored, erase_one, more_to_kill,
  kill_line,
}

-- How many characters stand between two counters.
abbrev pub ready : Cons → ℕ
ready s = uint_sub s.w s.r

abbrev pub used : Cons → ℕ
used s = uint_sub s.e s.r

-- The characters that a reader may take, and those that are still being edited.
abbrev pub committed : Cons → List ℕ
committed s = window s.buf input_max s.r (ready s)

abbrev pub editing : Cons → List ℕ
editing s = window s.buf input_max s.w (uint_sub s.e s.w)

abbrev pub Clean : List ℕ → Type 0
Clean [] = Unit
Clean (c ∷ cs) = (c ≢ newline) × Clean cs

pub record IsValid (s : Cons) : Type 0 where
  pub r_lt : s.r < 2 ^ 32
  pub w_lt : s.w < 2 ^ 32
  pub e_lt : s.e < 2 ^ 32
  pub size : length s.buf ≡ input_max
  pub order : ready s ≤ used s
  pub fits : used s ≤ input_max
  pub clean : Clean (editing s)

abbrev pub drop_last : List ℕ → List ℕ
drop_last [] = []
drop_last (x ∷ []) = []
drop_last (x ∷ y ∷ l) = x ∷ drop_last (y ∷ l)

-- The line editor that consoleintr stands for: finished lines and the line being typed.
pub record Editor : Type 0 where
  pub lines : List ℕ
  pub line : List ℕ

abbrev pub add_char : Editor → ℕ → Editor
add_char v c =
    if (c == newline || c == ctrl_d) || (length v.lines + length v.line + 1 == input_max)
    then record { lines = v.lines ++ (v.line ++ (c ∷ [])); line = [] }
    else record { lines = v.lines; line = v.line ++ (c ∷ []) }

abbrev pub type_char : Editor → ℕ → Editor
type_char v c =
    if c == ctrl_u
    then record { lines = v.lines; line = [] }
    else if c == ctrl_h || c == 127
    then record { lines = v.lines; line = drop_last v.line }
    else if not (c == 0) && ltb (length v.lines + length v.line) input_max
    then add_char v (stored c)
    else v

abbrev pub view : Cons → Editor
view s = record { lines = committed s; line = editing s }

pub Clean-append : (xs : List ℕ) (c : ℕ) → Clean xs → c ≢ newline → Clean (xs ++ (c ∷ []))
Clean-append [] c h ne = (ne, tt)
Clean-append (x ∷ xs) c h ne = (h.0, Clean-append xs c h.1 ne)

Clean-split : (xs : List ℕ) (c : ℕ) → Clean (xs ++ (c ∷ [])) → Clean xs × (c ≢ newline)
Clean-split [] c h = (tt, h.0)
Clean-split (x ∷ xs) c h = let (l, r) = Clean-split xs c h.1 in ((h.0, l), r)

pub drop_last-append : (xs : List ℕ) (c : ℕ) → drop_last (xs ++ (c ∷ [])) ≡ xs
drop_last-append [] c = refl
drop_last-append (x ∷ []) c = refl
drop_last-append (x ∷ y ∷ xs) c = ap (λ l. x ∷ l) (drop_last-append (y ∷ xs) c)

-- With a character to erase, the edited line is what is left and that character.
pub editing-split :
    (s : Cons)
    → IsValid s
    → s.e ≢ s.w
    → editing s ≡ editing (erase_one s) ++ (get_or s.buf (uint_sub s.e 1 % input_max) 0 ∷ [])
unfolding window erase_one
editing-split s v ne =
    let n = uint_sub (uint_sub s.e 1) s.w in
    let e : uint_sub s.e s.w ≡ n + 1 = omega arith in
    let i : (s.w + n) % input_max ≡ uint_sub s.e 1 % input_max = omega arith in
    ap (window s.buf input_max s.w) e
    ∙ window-add s.buf input_max s.w n 1
    ∙ ap (λ x. window s.buf input_max s.w n ++ (get_or s.buf x 0 ∷ [])) i

pub erase_one-IsValid : (s : Cons) → IsValid s → s.e ≢ s.w → IsValid (erase_one s)
unfolding erase_one
erase_one-IsValid s v ne = record {
  r_lt = v.r_lt;
  w_lt = v.w_lt;
  e_lt = omega arith;
  size = v.size;
  order = omega arith;
  fits = omega arith;
  clean = (Clean-split (editing (erase_one s)) _ (rw (editing-split s v ne) at v.clean)).0;
}

-- A valid state in which nothing is being edited, with the lines of `s`.
abbrev Killed : Cons → Cons → Type 0
Killed s k = IsValid k × (committed k ≡ committed s) × (editing k ≡ [])

pub editing-nil : (s : Cons) → IsValid s → s.e ≡ s.w → editing s ≡ []
unfolding window
editing-nil s v h = let e : uint_sub s.e s.w ≡ 0 = omega arith in rw e

more_to_kill-true : (s : Cons) → IsValid s → s.e ≢ s.w → more_to_kill s ≡ true
unfolding more_to_kill
more_to_kill-true s v ne =
    let ok = (Clean-split (editing (erase_one s)) _ (rw (editing-split s v ne) at v.clean)).1 in
    rw (==_of_ne s.e s.w ne, ==_of_ne _ newline ok)

pub kill_line-Killed :
    (fuel : ℕ) (s : Cons) → IsValid s → uint_sub s.e s.w ≤ fuel → Killed s (kill_line fuel s)
unfolding kill_line
kill_line-Killed zero s v h = let e : s.e ≡ s.w = omega arith in (v, refl, editing-nil s v e)
kill_line-Killed (suc fuel) s v h = elim (Bool-cases (s.e == s.w)) [
  | inl same ↦
      let e : s.e ≡ s.w = (==_iff s.e s.w).0 same in
      let stop : more_to_kill s ≡ false = (unfold more_to_kill in rw same) in
      rw stop (v, refl, editing-nil s v e)
  | inr diff ↦
      let ne = ne_of_== s.e s.w diff in
      let (v', l, n) =
        kill_line-Killed fuel (erase_one s) (erase_one-IsValid s v ne)
          (unfold erase_one in omega arith) in
      rw (more_to_kill-true s v ne) (v', l ∙ (unfold erase_one in refl), n)
]

stored-ne_cr : (c : ℕ) → c ≢ ctrl_u → stored c ≢ 13
stored-ne_cr c h = ground arith
