-- ===== src/Base/Progress.antt =====
-- How a routine that takes sleep locks ends: in panic, asleep on a lock that is held, or with a result.
use halo_os.Base.Outcome.{Outcome, ok, panic}

pub data Progress {ℓ} (A : Type ℓ) : Type ℓ where
  panicked : Progress A
  asleep : Progress A
  done : A → Progress A

infixl 5 ◌>>=◌
abbrev pub ◌>>=◌ {ℓ m} : {A : Type ℓ} {B : Type m} → Progress A → (A → Progress B) → Progress B
panicked >>= f = panicked
asleep >>= f = asleep
done a >>= f = f a

abbrev pub of_outcome {ℓ} : {A : Type ℓ} → Outcome A → Progress A
of_outcome panic = panicked
of_outcome (ok a) = done a

-- A property of the result, if there is one.
abbrev pub After {ℓ m} : {A : Type ℓ} → Progress A → (A → Type m) → Type m
After panicked P = Unit
After asleep P = Unit
After (done a) P = P a

pub After-bind {ℓ m n p} :
    {A : Type ℓ} {B : Type m} (r : Progress A) (f : A → Progress B) (P : A → Type n)
    (Q : B → Type p)
    → After r P
    → ((a : A) → P a → After (f a) Q)
    → After (r >>= f) Q
After-bind panicked f P Q h g = tt
After-bind asleep f P Q h g = tt
After-bind (done a) f P Q h g = g a h

pub After-of_outcome {ℓ m} :
    {A : Type ℓ} (r : Outcome A) (P : A → Type m) → ((a : A) → P a) → After (of_outcome r) P
After-of_outcome (ok a) P h = h a
After-of_outcome panic P h = tt

pub After-weaken {ℓ m n} :
    {A : Type ℓ} (r : Progress A) (P : A → Type m) (Q : A → Type n)
    → After r P
    → ((a : A) → P a → Q a)
    → After r Q
After-weaken panicked P Q h f = tt
After-weaken asleep P Q h f = tt
After-weaken (done a) P Q h f = f a h
