-- ===== src/Console/Reading.antt =====
-- consoleread of src/kernel/console.c, called when the input that it needs has arrived.
use halo_os.Base.{
  ℕ, zero, suc, ◌+◌, ◌%◌, ◌≤◌, ◌≡◌, Bool, true, false, ◌||◌, List, [], ◌∷◌, ltb, ◌==◌,
  if◌then◌else◌, length,
}
use mathlib.Core.List.{reverse_aux}
use halo_os.Base.Window.{get_or}
use halo_os.Console.{
  Cons, input_max, ctrl_d, newline, uint_add, uint_sub, Wake, Read, count, read_loop,
}
use halo_os.Console.View.{committed, editing, IsValid}

-- The input holds `n` characters, or a newline or C('D') before them: a read of `n` bytes does not
-- have to wait.
abbrev pub enough : ℕ → List ℕ → Bool
enough zero l = true
enough (suc n) [] = false
enough (suc n) (c ∷ l) = (c == newline || c == ctrl_d) || enough n l

-- What a read with `n` of `target` bytes to go delivers, and the input that it leaves.
abbrev pub taken : (target n : ℕ) → List ℕ → List ℕ
taken target zero l = []
taken target (suc n) [] = []
taken target (suc n) (c ∷ l) =
    if c == ctrl_d then [] else c ∷ (if c == newline then [] else taken target n l)

abbrev pub left : (target n : ℕ) → List ℕ → List ℕ
left target zero l = l
left target (suc n) [] = []
left target (suc n) (c ∷ l) =
    if c == ctrl_d
    then if ltb (suc n) target then c ∷ l else l
    else if c == newline
    then l
    else left target n l

-- The state behind `cons.r++`.
abbrev advance : Cons → Cons
advance s = record s { r = uint_add s.r 1 }

-- What taking the first character of the input `c ∷ l` does.
record Takes (s : Cons) (c : ℕ) (l : List ℕ) : Type 0 where
  some_input : (s.r == s.w) ≡ false
  head : get_or s.buf (s.r % input_max) 0 ≡ c
  rest : committed (advance s) ≡ l
  valid : IsValid (advance s)
  back : uint_sub (uint_add s.r 1) 1 ≡ s.r

-- What a call must return that had delivered `before` bytes, last first `out`: the count and the
-- bytes, with `new` behind those before, and a valid state that holds the input `rest` and the same
-- line being edited.
pub record Reads (before : ℕ) (new rest line out : List ℕ) (res : Read) : Type 0 where
  pub reply : res.reply ≡ count (before + length new)
  pub delivered : res.delivered ≡ reverse_aux new out
  pub input : committed res.state ≡ rest
  pub valid : IsValid res.state
  pub same_line : editing res.state ≡ line

abbrev pub no_fault : ℕ → Bool
no_fault a = false

-- The three ways on from a first character `c`.
module _ (target n dst : ℕ) (dead : Bool) (s : Cons) (wakes : List Wake) (out : List ℕ) (c : ℕ)
    (l : List ℕ) (le : suc n ≤ target) (t : Takes s c l) (v : IsValid s)
    (input : committed s ≡ c ∷ l) where
  abbrev result : Read
  result = read_loop no_fault target (suc n) dst dead s wakes out

  abbrev more : Read
  more = read_loop no_fault target n (dst + 1) dead (advance s) wakes (c ∷ out)
