-- ===== src/Base/Memory.antt =====
-- Byte-addressed memory: a function from addresses to bytes.
use Prim.Native.Nat.{ℕ}
use halo_os.Base.Tests.{◌==◌, if◌then◌else◌}

abbrev pub Mem : Type 0
Mem = ℕ → ℕ

-- `*a = v`
abbrev pub store : Mem → ℕ → ℕ → Mem
store m a v b = if b == a then v else m b
