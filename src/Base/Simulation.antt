-- ===== src/Base/Simulation.antt =====
-- Two computations that may fail and go on side by side.
use mathlib.Core.Path.{◌≡◌, refl, subst}
use deprecated_yandex_contes.Base.Fault.{Result, ok, err, ◌>>=◌}

-- Both fail in the same way, or both return, and `R` holds of the results.
abbrev pub Sim : {A B : Type 0} → (A → B → Type 0) → Result A → Result B → Type 0
Sim R (ok a) (ok b) = R a b
Sim R (ok a) (err e) = ⊥
Sim R (err e) (ok b) = ⊥
Sim R (err e) (err f) = e ≡ f

-- Both go on with related results.
pub >>=-Sim :
    {A B C D : Type 0} (R : A → B → Type 0) (S : C → D → Type 0) (m : Result A) (n : Result B)
    (f : A → Result C) (g : B → Result D)
    → Sim R m n
    → ((a : A) (b : B) → R a b → Sim S (f a) (g b))
    → Sim S (m >>= f) (n >>= g)
>>=-Sim R S (ok a) (ok b) f g first next = next a b first
>>=-Sim R S (ok a) (err e) f g first next = absurd first
>>=-Sim R S (err e) (ok b) f g first next = absurd first
>>=-Sim R S (err e) (err d) f g first next = first

-- Both begin with the same computation.
pub Sim-same :
    {A C D : Type 0} (S : C → D → Type 0) (m : Result A) (f : A → Result C) (g : A → Result D)
    → ((a : A) → Sim S (f a) (g a))
    → Sim S (m >>= f) (m >>= g)
Sim-same S (ok a) f g next = next a
Sim-same S (err e) f g next = refl

-- The same first component, and related second ones.
abbrev pub Pair : {A K L : Type 0} → (K → L → Type 0) → A × K → A × L → Type 0
Pair R (a, k) (b, l) = (a ≡ b) × R k l

pub >>=-Pair :
    {A K L C D : Type 0} (R : K → L → Type 0) (S : C → D → Type 0) (m : Result (A × K))
    (n : Result (A × L)) (f : A × K → Result C) (g : A × L → Result D)
    → Sim (Pair R) m n
    → ((a : A) (k : K) (l : L) → R k l → Sim S (f (a, k)) (g (a, l)))
    → Sim S (m >>= f) (n >>= g)
>>=-Pair R S m n f g first next =
    >>=-Sim (Pair R) S m n f g first
      (λ x y both. subst (λ a. Sim S (f x) (g (a, y.1))) both.0 (next x.0 x.1 y.1 both.1))
