-- ===== src/Print/Format.antt =====
-- printf of src/kernel/print.c: what it does to a format piece by piece.
use mathlib.Core.Option
use halo_os.Base.{ℕ, ◌≡◌, refl, false, Option, none, some, List, [], ◌∷◌, ◌++◌, arith, ◌==◌}
use halo_os.Print.{Arg, printf, directive}

-- No character of the text is `%`.
abbrev pub Plain : List ℕ → Type 0
Plain [] = Unit
Plain (c ∷ cs) = ((c == b'%') ≡ false) × Plain cs

-- printf of a text with no `%` in front of a rest prints the text and then what the rest prints.
pub printf-Plain :
    (text rest : List ℕ) (args : List Arg)
    → Plain text
    → printf (text ++ rest) args ≡ Option.map (λ out. text ++ out) (printf rest args)
unfolding printf
printf-Plain [] rest args h = ground arith
printf-Plain (c ∷ []) [] args h = refl
printf-Plain (c ∷ []) (d ∷ rest) args h = rw h.0
printf-Plain (c ∷ d ∷ text) rest args h =
    rw (h.0, printf-Plain (d ∷ text) rest args h.1) (ground arith)

map-map :
    (t u : List ℕ) (o : Option (List ℕ))
    → Option.map (λ out. t ++ out) (Option.map (λ out. u ++ out) o)
      ≡ Option.map (λ out. t ++ (u ++ out)) o
map-map t u none = refl
map-map t u (some out) = refl

map-bind :
    (t : List ℕ) (o : Option (List ℕ × List Arg)) (k : List Arg → Option (List ℕ))
    → Option.map (λ out. t ++ out) (Option.bind o (λ r. Option.map (λ out. r.0 ++ out) (k r.1)))
      ≡ Option.bind o (λ r. Option.map (λ out. t ++ (r.0 ++ out)) (k r.1))
unfolding Option.bind
map-bind t none k = refl
map-bind t (some r) k = map-map t r.0 (k r.1)

-- A text with no `%` in front of one directive and a rest: printf prints the text, then what the
-- directive makes of the arguments, then the rest of the format with the arguments left.
pub printf-directive :
    (text rest : List ℕ) (c : ℕ) (args : List Arg)
    → Plain text
    → printf (text ++ (b'%' ∷ c ∷ rest)) args
      ≡ Option.bind
          (directive c args)
          (λ r. Option.map (λ out. text ++ (r.0 ++ out)) (printf rest r.1))
unfolding printf Option.bind
printf-directive text rest c args h =
    rw (printf-Plain text (b'%' ∷ c ∷ rest) args h) (map-bind text (directive c args) (printf rest))
