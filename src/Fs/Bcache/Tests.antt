-- ===== src/Fs/Bcache/Tests.antt =====
-- The buffer cache of src/kernel/fs.c from its first state on.
use halo_os.Base.{ℕ, ◌≡◌, refl, List, [], ◌∷◌, arith}
use halo_os.Base.Outcome.{Outcome, ok, panic}
use halo_os.Fs.Bcache.{Bcache, init_bcache, bget, bread, bwrite, brelease}
use halo_os.Fs.Bcache.Unique.{Once, Gets, bget-Gets}

-- Block `n` of the disk holds `n` in every byte.
abbrev disk : ℕ → ℕ → ℕ
disk n i = n

abbrev byte_of : Outcome (ℕ × Bcache) → ℕ
byte_of panic = 0
byte_of (ok (i, c)) = (c.bufs i).bytes 7

abbrev index_of : Outcome (ℕ × Bcache) → ℕ
index_of panic = 99
index_of (ok (i, c)) = i

abbrev cache_of : Outcome (ℕ × Bcache) → Bcache
cache_of panic = init_bcache
cache_of (ok (i, c)) = c

abbrev front_of : Outcome Bcache → List ℕ
front_of panic = []
front_of (ok c) = c.ring

init_bcache-Once : Once init_bcache
unfolding init_bcache
init_bcache-Once i j ini inj nz d b = absurd (nz refl)

test-bget : index_of (bget init_bcache 1 40) ≡ 0
unfolding bget init_bcache
test-bget = refl

test-bread : byte_of (bread disk init_bcache 5 1 40) ≡ 40
unfolding bread bget init_bcache
test-bread = refl

test-bwrite : bwrite disk init_bcache 5 0 ≡ panic
unfolding bwrite init_bcache
test-bwrite = refl

test-brelease :
    front_of (brelease (cache_of (bread disk init_bcache 5 1 40)) 5 0)
    ≡ 0 ∷ 15 ∷ 14 ∷ 13 ∷ 12 ∷ 11 ∷ 10 ∷ 9 ∷ 8 ∷ 7 ∷ 6 ∷ 5 ∷ 4 ∷ 3 ∷ 2 ∷ 1 ∷ []
unfolding brelease bread bget init_bcache
test-brelease = refl

bget-Gets_example : Gets init_bcache 1 40 (bget init_bcache 1 40)
bget-Gets_example = bget-Gets init_bcache 1 40 (λ h. omega arith) init_bcache-Once
