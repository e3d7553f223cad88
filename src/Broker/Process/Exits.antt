-- ===== src/Broker/Process/Exits.antt =====
-- How the process of src/bin/broker.cpp ends.
use deprecated_yandex_contes.Base.{
  ℕ, List, [], ◌∷◌, Option, none, some, Bytes, length, Result, ok, err, Error, assertion, or_throw,
  json_error, ◌>>=◌, ◌≡◌, ◌≢◌, ◌⊎◌, inl, inr, refl,
}
use deprecated_yandex_contes.Text.Json.{Json}
use deprecated_yandex_contes.Tokenizer.{DynamicLibrary, new_factory}
use deprecated_yandex_contes.Killer.{KillerOps}
use deprecated_yandex_contes.Broker.Types.{Casts}
use deprecated_yandex_contes.Broker.Interface.{Exit, failure, abort}
use deprecated_yandex_contes.Broker.State.{Options}
use deprecated_yandex_contes.Broker.Options.{SavedOptions, read_options}
use deprecated_yandex_contes.Broker.Process.{World, start, main}

-- A function that the factory needs is missing.
abbrev pub IsPartial : {T : Type 0} → DynamicLibrary T → Type 0
IsPartial dl =
    (dl.tokenizer_new ≡ none) ⊎ ((dl.tokenizer_delete ≡ none) ⊎ (dl.tokenizer_parse ≡ none))

or_throw-none :
    {A B : Type 0} (o : Option A) (e : Error) (k : A → Result B)
    → o ≡ none
    → (or_throw o e >>= k) ≡ err e
or_throw-none o e k n = rw n refl

-- A chain that ends with an error in any case.
or_throw-later :
    {A B : Type 0} (o : Option A) (e : Error) (k : A → Result B)
    → ((a : A) → k a ≡ err e)
    → (or_throw o e >>= k) ≡ err e
or_throw-later none e k h = refl
or_throw-later (some a) e k h = h a

new_factory-IsPartial :
    {T : Type 0} (dl : DynamicLibrary T) → IsPartial dl → new_factory dl ≡ err assertion
unfolding new_factory
new_factory-IsPartial dl (inl n) = or_throw-none dl.tokenizer_new assertion _ n
new_factory-IsPartial dl (inr (inl n)) =
    or_throw-later dl.tokenizer_new assertion _
      λ new. or_throw-none dl.tokenizer_delete assertion _ n
new_factory-IsPartial dl (inr (inr n)) = or_throw-later dl.tokenizer_new assertion _ λ new.
    or_throw-later dl.tokenizer_delete assertion _
      λ delete. or_throw-none dl.tokenizer_parse assertion _ n

module _ {I T K D : Type 0} (json : Json (SavedOptions I)) (world : World T K D) where
  -- What keeps the process from its loop before the constructor of the broker, and how it ends then.
  pub data Refused : List Bytes → Exit → Type 0 where
    miscounted : (argv : List Bytes) → length argv ≢ 2 → Refused argv abort
    unread :
        (program path : Bytes)
        → read_options json (world.file path) ≡ err json_error
        → Refused (program ∷ path ∷ []) failure
    unloaded :
        (program path : Bytes) (options : Options I)
        → read_options json (world.file path) ≡ ok options
        → world.library options.tokenizer ≡ none
        → Refused (program ∷ path ∷ []) failure
    partial :
        (program path : Bytes) (options : Options I) (dl : DynamicLibrary T)
        → read_options json (world.file path) ≡ ok options
        → world.library options.tokenizer ≡ some dl
        → IsPartial dl
        → Refused (program ∷ path ∷ []) abort

module _ {I T K D : Type 0} (json : Json (SavedOptions I)) (killer : KillerOps I K)
    (world : World T K D) where
  start-miscounted :
      (argv : List Bytes) → length argv ≢ 2 → start json killer world argv ≡ err assertion
  unfolding start
  start-miscounted [] h = refl
  start-miscounted (_ ∷ []) h = refl
  start-miscounted (_ ∷ _ ∷ []) h = absurd (h refl)
  start-miscounted (_ ∷ _ ∷ _ ∷ _) h = refl

  -- The broker process aborts when it has not exactly one argument or the library of the tokenizer
  -- lacks a function other than the one for messages, and exits with status 1 when it cannot read
  -- its options or load the library; in each case it serves nobody.
  pub main-Refused :
      (c : Casts) (fuel : ℕ) (argv : List Bytes) (exit : Exit)
      → Refused json world argv exit
      → main json killer c fuel world argv ≡ record { exit = exit; served = none }
  unfolding main start
  main-Refused c fuel argv exit (miscounted _ h) = rw (main, start-miscounted argv h) refl
  main-Refused c fuel argv exit (unread program path read) = rw (main, start, read) refl
  main-Refused c fuel argv exit (unloaded program path options read found) =
      rw (main, start, read, found) refl
  main-Refused c fuel argv exit (partial program path options dl read found lacks) =
      rw (main, start, read, found, new_factory-IsPartial dl lacks) refl
