-- ===== src/Util/Compare.antt =====
-- strncmp of src/kernel/util.c against the names that its arguments hold.
use halo_os.Base.{ℕ, zero, suc, ◌+◌, ◌≡◌, ◌↔◌, refl, List, [], ◌∷◌, arith, ◌==◌, if◌then◌else◌}
use halo_os.Base.Int.{pos}
use halo_os.Base.Memory.{Mem}
use halo_os.Util.{strncmp}

-- The bytes from `p` on, up to the first NUL byte, and `n` at most: the name in a field of `n` bytes.
unfoldable pub name_of : Mem → (p n : ℕ) → List ℕ
name_of m p zero = []
name_of m p (suc n) = if m p == 0 then [] else m p ∷ name_of m (p + 1) n

-- strncmp returns 0 exactly when the two fields of `n` bytes hold the same name.
pub strncmp-zero_iff :
    (m : Mem) (p q n : ℕ) → (strncmp m p q n ≡ pos 0) ↔ (name_of m p n ≡ name_of m q n)
unfolding strncmp name_of
strncmp-zero_iff m p q zero = (λ h. refl, λ h. refl)
strncmp-zero_iff m p q (suc n) = (
  ground (arith, strncmp-zero_iff m (p + 1) (q + 1) n),
  ground (arith, strncmp-zero_iff m (p + 1) (q + 1) n),
)
