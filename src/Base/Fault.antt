-- ===== src/Base/Fault.antt =====
-- What ends a function early. An exception and a failed assertion both leave every function of
-- the program up to `main`; no handler below it keeps the state.
use mathlib.Core.Path.{◌≡◌, refl}
use mathlib.Core.Logic.{◌⊎◌, inl, inr}
use mathlib.Core.Bool.{Bool, true, false}
use mathlib.Core.Option.{Option, none, some}

-- `pending` is no exception: what the environment answers in the model ended, and the code still
-- waits for more of it.
pub data Error : Type 0 where
  assertion end_of_file system_error bad_lexical_cast bad_alloc json_error pending : Error

pub data Result {ℓ} (A : Type ℓ) : Type ℓ where
  ok : A → Result A
  err : Error → Result A

-- What a function takes out of an option, or throws.
abbrev pub or_throw {ℓ} : {A : Type ℓ} → Option A → Error → Result A
or_throw none e = err e
or_throw (some a) e = ok a

-- The first failure of a chain ends it.
module _ {ℓ κ} {A : Type ℓ} {B : Type κ} where
  infixl 5 ◌>>=◌
  abbrev pub ◌>>=◌ : Result A → (A → Result B) → Result B
  err failure >>= next = err failure
  ok value >>= next = next value

  -- What is known of both parts of a chain that succeeded.
  pub >>=-eq-ok :
      (first : Result A) (next : A → Result B) {b : B}
      → (first >>= next) ≡ ok b
      → (value : A) × (first ≡ ok value) × (next value ≡ ok b)
  >>=-eq-ok (err failure) next run = cc
  >>=-eq-ok (ok value) next run = (value, refl, run)

-- `BOOST_ASSERT(b)` and `assert(b)`.
abbrev pub assert : Bool → Result (Unit {0})
assert true = ok tt
assert false = err assertion

-- `if (b) throw e;`
abbrev pub throw_if : Bool → Error → Result (Unit {0})
throw_if true e = err e
throw_if false e = ok tt

infixl 5 ◌>>◌
abbrev pub ◌>>◌ {ℓ} : {B : Type ℓ} → Result (Unit {0}) → Result B → Result B
check >> next = check >>= λ _. next

-- A chain does not end with an error that no step of it ends with.
pub >>=-ne-err {ℓ κ} :
    {A : Type ℓ} {B : Type κ} (e : Error) (m : Result A) (f : A → Result B)
    → ¬ (m ≡ err e)
    → ((a : A) → ¬ (f a ≡ err e))
    → ¬ ((m >>= f) ≡ err e)
>>=-ne-err e (ok a) f h k = k a
>>=-ne-err e (err d) f h k = λ p. h cc

pub Result-cases {ℓ} :
    {A : Type ℓ} (r : Result A) → ((e : Error) × (r ≡ err e)) ⊎ ((a : A) × (r ≡ ok a))
Result-cases (ok a) = inr (a, refl)
Result-cases (err e) = inl (e, refl)

pub >>=-assoc {ℓ κ μ} :
    {A : Type ℓ} {B : Type κ} {C : Type μ} (m : Result A) (f : A → Result B) (g : B → Result C)
    → ((m >>= f) >>= g) ≡ (m >>= λ a. f a >>= g)
>>=-assoc (ok a) f g = refl
>>=-assoc (err e) f g = refl

pub ok-injective {ℓ} : {A : Type ℓ} {a b : A} → ok a ≡ ok b → a ≡ b
ok-injective p = cc

pub assert-ok {ℓ} :
    {B : Type ℓ} (c : Bool) {k : Result B} {b : B}
    → (assert c >> k) ≡ ok b
    → (c ≡ true) × (k ≡ ok b)
assert-ok true h = (refl, h)
assert-ok false h = cc
