-- ===== src/Base/Window.antt =====
-- Circular buffers: a list read and written at indices modulo its capacity.
use Prim.Native.Nat.{ℕ, zero, suc, ◌+◌, ◌-◌, ◌%◌, ◌≤◌, ◌<◌}
use mathlib.Core.Path.{◌≡◌, refl, sym, ap, ap₂, ◌∙◌}
use mathlib.Core.Logic.{◌≢◌}
use mathlib.Core.List.{List, [], ◌∷◌, ◌++◌}
use native.Mathlib.Nat.{mod-add-mod, mod-eq_of_lt, mod-eq-sub-mod, mod-lt}
use native.Mathlib.Decide.{dec_lt}
use native.Mathlib.Omega.{arith}
use halo_os.Base.Lists.{length, set}

module _ {ℓ} {A : Type ℓ} where
  -- The element at `i`, in an array that is not empty.
  abbrev pub get_or : List A → ℕ → A → A
  get_or [] i d = d
  get_or (x ∷ xs) zero d = x
  get_or (x ∷ xs) (suc i) d = get_or xs i d

  pub get_or-set_self :
      (xs : List A) (i : ℕ) (v d : A) → i < length xs → get_or (set xs i v) i d ≡ v
  get_or-set_self [] i v d h = elim h [ ]
  get_or-set_self (x ∷ xs) zero v d h = refl
  get_or-set_self (x ∷ xs) (suc i) v d h = get_or-set_self xs i v d (omega arith)

  pub get_or-set_ne :
      (xs : List A) (i j : ℕ) (v d : A) → i ≢ j → get_or (set xs i v) j d ≡ get_or xs j d
  get_or-set_ne [] i j v d h = refl
  get_or-set_ne (x ∷ xs) zero zero v d h = absurd (h refl)
  get_or-set_ne (x ∷ xs) zero (suc j) v d h = refl
  get_or-set_ne (x ∷ xs) (suc i) zero v d h = refl
  get_or-set_ne (x ∷ xs) (suc i) (suc j) v d h = get_or-set_ne xs i j v d (λ e. h (ap suc e))

pub suc-mod : (size i j : ℕ) → i % size ≡ j % size → (i + 1) % size ≡ (j + 1) % size
suc-mod size i j h = sym (mod-add-mod i size 1) ∙ ap (λ x. (x + 1) % size) h ∙ mod-add-mod j size 1

-- Fewer than `size` steps round the buffer do not come back to the start.
pub add-mod-ne : (size i k : ℕ) → 0 < k → k < size → (i + k) % size ≢ i % size
add-mod-ne size i k pos_k lt h = elim (dec_lt (i % size + k) size) [
  | yes p ↦ omega (arith, mod-add-mod i size k, mod-eq_of_lt p)
  | no p ↦ omega (
    arith,
    mod-add-mod i size k,
    mod-lt i {m = size} (omega arith),
    mod-eq-sub-mod {n = i % size + k} {m = size} (omega arith),
    mod-eq_of_lt {n = i % size + k - size} {m = size} (omega arith),
  )
]

-- The `n` bytes from index `i` on, going round at `size`.
unfoldable pub window : (buf : List ℕ) (size i n : ℕ) → List ℕ
window buf size i zero = []
window buf size i (suc n) = get_or buf (i % size) 0 ∷ window buf size (i + 1) n

pub window-congr :
    (buf : List ℕ) (size i j n : ℕ)
    → i % size ≡ j % size
    → window buf size i n ≡ window buf size j n
unfolding window
window-congr buf size i j zero h = refl
window-congr buf size i j (suc n) h =
    ap₂ (λ x l. get_or buf x 0 ∷ l) h (window-congr buf size (i + 1) (j + 1) n (suc-mod size i j h))

pub length-window : (buf : List ℕ) (size i n : ℕ) → length (window buf size i n) ≡ n
unfolding window
length-window buf size i zero = refl
length-window buf size i (suc n) = ap suc (length-window buf size (i + 1) n)

pub window-add :
    (buf : List ℕ) (size i a b : ℕ)
    → window buf size i (a + b) ≡ window buf size i a ++ window buf size (i + a) b
unfolding window
window-add buf size i zero b =
    let e : 0 + b ≡ b = omega arith in let f : i + 0 ≡ i = omega arith in rw (e, f)
window-add buf size i (suc a) b =
    let e : suc a + b ≡ suc (a + b) = omega arith in
    let f : i + suc a ≡ i + 1 + a = omega arith in
    rw (e, f) (ap (λ l. get_or buf (i % size) 0 ∷ l) (window-add buf size (i + 1) a b))

-- Writing just past a window leaves the window, for fewer than `size` bytes.
pub window-set_out :
    (buf : List ℕ) (size i n j v p : ℕ)
    → n ≤ j
    → j < size
    → p ≡ (i + j) % size
    → window (set buf p v) size i n ≡ window buf size i n
unfolding window
window-set_out buf size i zero j v p le lt e = refl
window-set_out buf size i (suc n) zero v p le lt e = absurd (omega arith)
window-set_out buf size i (suc n) (suc j) v p le lt e =
    ap₂ ◌∷◌
      (get_or-set_ne buf p (i % size) v 0
        (λ same. add-mod-ne size i (suc j) (omega arith) lt (sym e ∙ same)))
      (window-set_out buf size (i + 1) n j v p (omega arith) (omega arith)
        (e ∙ ap (λ x. x % size) (omega arith)))

-- Writing just past a window extends it by that byte.
pub window-snoc :
    (buf : List ℕ) (size i n v p : ℕ)
    → n < size
    → size ≤ length buf
    → p ≡ (i + n) % size
    → window (set buf p v) size i (n + 1) ≡ window buf size i n ++ (v ∷ [])
unfolding window
window-snoc buf size i n v p lt len e =
    window-add (set buf p v) size i n 1
    ∙ ap₂ ◌++◌ (window-set_out buf size i n n v p (omega arith) lt e) (
        ap (λ x. x ∷ [])
          (ap (λ x. get_or (set buf p v) x 0) (sym e)
            ∙ get_or-set_self buf p v 0 (omega (arith, mod-lt (i + n) {m = size} (omega arith)))))
