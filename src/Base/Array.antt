-- ===== src/Base/Array.antt =====
-- C arrays as functions from indices: a write changes one index.
use Prim.Native.Nat.{ℕ}
use halo_os.Base.Tests.{◌==◌, if◌then◌else◌}

abbrev pub update {ℓ} : {A : Type ℓ} → (ℕ → A) → ℕ → A → ℕ → A
update f i v j = if j == i then v else f j
