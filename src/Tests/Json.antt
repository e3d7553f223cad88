-- ===== src/Tests/Json.antt =====
-- JSON files of the options that are read back: numbers one after the other.
use mathlib.Core.Option
use deprecated_yandex_contes.Base.{
  ℕ, zero, suc, List, [], ◌∷◌, ◌++◌, Option, none, some, Bytes, ℤ, pos, negsuc, length, take, drop,
  ◌≡◌, ◌∙◌, refl, ap,
}
use deprecated_yandex_contes.Text.Json.{Json, IsJson}
use deprecated_yandex_contes.Broker.State.{Process, Protocol, text_protocol}
use deprecated_yandex_contes.Broker.Options.{SavedOptions}
use deprecated_yandex_contes.Killer.Impl.{KillerOptions}

abbrev numbers_of : List (Process ℕ) → Bytes → Bytes
numbers_of [] rest = rest
numbers_of (p ∷ ps) rest = p.ends.in_fd ∷ p.ends.out_fd ∷ p.id ∷ numbers_of ps rest

abbrev process_from : ℕ → ℕ → ℕ → Process ℕ
process_from a b c = record { ends = record { in_fd = a; out_fd = b }; id = c }

abbrev processes_from : ℕ → Bytes → Option (List (Process ℕ) × Bytes)
processes_from zero rest = some ([], rest)
processes_from (suc n) [] = none
processes_from (suc n) (_ ∷ []) = none
processes_from (suc n) (_ ∷ _ ∷ []) = none
processes_from (suc n) (a ∷ b ∷ c ∷ rest) =
    Option.map (λ (x : List (Process ℕ) × Bytes). (process_from a b c ∷ x.0, x.1))
      (processes_from n rest)

processes_from-numbers_of :
    (ps : List (Process ℕ)) (rest : Bytes)
    → processes_from (length ps) (numbers_of ps rest) ≡ some (ps, rest)
processes_from-numbers_of [] rest = refl
processes_from-numbers_of (p ∷ ps) rest = rw (processes_from-numbers_of ps rest) refl

abbrev sign : ℤ → ℕ
sign (pos _) = 0
sign (negsuc _) = 1

abbrev size : ℤ → ℕ
size (pos n) = n
size (negsuc n) = n

abbrev int_from : ℕ → ℕ → ℤ
int_from zero n = pos n
int_from (suc _) n = negsuc n

int_from-sign : (z : ℤ) → int_from (sign z) (size z) ≡ z
int_from-sign (pos n) = refl
int_from-sign (negsuc n) = refl

abbrev write_options : SavedOptions ℕ → Bytes
write_options o =
    sign o.default_limits.user_time_limit
    ∷ size o.default_limits.user_time_limit
    ∷ sign o.default_limits.real_time_limit
    ∷ size o.default_limits.real_time_limit
    ∷ length o.solutions
    ∷ numbers_of (o.killer ∷ o.judge ∷ o.solutions) o.tokenizer

abbrev gathered : ℕ → ℕ → ℕ → ℕ → List (Process ℕ) × Bytes → Option (SavedOptions ℕ)
gathered a b c d ([], _) = none
gathered a b c d (_ ∷ [], _) = none
gathered a b c d (killer ∷ judge ∷ solutions, tokenizer) = some (record {
  protocol = text_protocol;
  tokenizer = tokenizer;
  solutions = solutions;
  killer = killer;
  judge = judge;
  default_limits = record { user_time_limit = int_from a b; real_time_limit = int_from c d };
})

abbrev read_options : Bytes → Option (SavedOptions ℕ)
read_options (a ∷ b ∷ c ∷ d ∷ n ∷ rest) = elim (processes_from (suc (suc n)) rest) [
  | none ↦ none
  | some x ↦ gathered a b c d x
]
read_options _ = none

only : (p : Protocol) → p ≡ text_protocol
only text_protocol = refl

take-length : (xs ys : Bytes) → take (length xs) (xs ++ ys) ≡ xs
take-length [] ys = refl
take-length (x ∷ xs) ys = ap (◌∷◌ x) (take-length xs ys)

drop-length : (xs ys : Bytes) → drop (length xs) (xs ++ ys) ≡ ys
drop-length [] ys = refl
drop-length (x ∷ xs) ys = drop-length xs ys

abbrev pub broker_json : Json (SavedOptions ℕ)
broker_json = record { write = write_options; read = read_options }

same :
    (o : SavedOptions ℕ) (p : Protocol) (user user' real real' : ℤ)
    → p ≡ text_protocol
    → user ≡ user'
    → real ≡ real'
    → some (record o {
      protocol = text_protocol;
      default_limits = record { user_time_limit = user; real_time_limit = real };
    })
      ≡ some (record o {
        protocol = p;
        default_limits = record { user_time_limit = user'; real_time_limit = real' };
      })
same o p user user' real real' e f g = rw (e, f, g) refl

pub broker_json-IsJson : IsJson broker_json
broker_json-IsJson = record { reads = back }
  where
    back : (o : SavedOptions ℕ) → read_options (write_options o) ≡ some o
    back o =
        ap
          (λ (x : Option (List (Process ℕ) × Bytes)). elim x [
            | none ↦ none
            | some y ↦
                gathered (sign o.default_limits.user_time_limit)
                  (size o.default_limits.user_time_limit) (sign o.default_limits.real_time_limit)
                  (size o.default_limits.real_time_limit) y
          ])
          (processes_from-numbers_of (o.killer ∷ o.judge ∷ o.solutions) o.tokenizer)
        ∙ same o o.protocol _ _ _ _ (only o.protocol)
            (int_from-sign o.default_limits.user_time_limit)
            (int_from-sign o.default_limits.real_time_limit)

abbrev write_killer : KillerOptions ℕ → Bytes
write_killer o = length o.unprotected ∷ o.unprotected ++ o.pattern

abbrev read_killer : Bytes → Option (KillerOptions ℕ)
read_killer [] = none
read_killer (n ∷ rest) = some (record { unprotected = take n rest; pattern = drop n rest })

abbrev pub killer_json : Json (KillerOptions ℕ)
killer_json = record { write = write_killer; read = read_killer }

pub killer_json-IsJson : IsJson killer_json
killer_json-IsJson = record { reads = back }
  where
    back : (o : KillerOptions ℕ) → read_killer (write_killer o) ≡ some o
    back o = rw (take-length o.unprotected o.pattern, drop-length o.unprotected o.pattern) refl
