-- ===== src/Configurator/Spec.antt =====
-- What src/lib/Configurator.cpp makes of the processes and the files of a game.
use deprecated_yandex_contes.Base.{
  All, ℕ, ◌+◌, ◌<◌, false, List, [], ◌∷◌, Option, some, Bytes, map, length, ok, ◌≡◌,
}
use deprecated_yandex_contes.Invoker.{Owner, Stream, read_end, write_end, Settings, Entry}
use deprecated_yandex_contes.Broker.Communicate.{Ends}
use deprecated_yandex_contes.Broker.State.{Process, Options}
use deprecated_yandex_contes.Broker.Options.{read_options}
use deprecated_yandex_contes.Killer.Impl.{KillerOptions}
use deprecated_yandex_contes.Configurator.{
  Configurator, Libraries, root, default_pattern, owner_reads,
}

-- The descriptors of a configuration are, in the broker, the other ends of two pipes that are the
-- standard input and output of the process.
abbrev pub Connected :
    {I Pi : Type 0} → (ℕ → Option (Stream Pi)) → Process I → Settings I Pi → Type 0
Connected {Pi = Pi} streams cfg proc =
    (input : Pi) × (output : Pi) × (proc.streams 0 ≡ some (read_end input))
    × (proc.streams 1 ≡ some (write_end output))
    × (streams cfg.ends.in_fd ≡ some (write_end input))
    × (streams cfg.ends.out_fd ≡ some (read_end output))
    × (cfg.id ≡ proc.id)

-- The descriptors below `n` are as they were.
abbrev pub Below : {Pi : Type 0} → ℕ → (ℕ → Option (Stream Pi)) → (ℕ → Option (Stream Pi)) → Type 0
Below n before after = (m : ℕ) → m < n → after m ≡ before m

-- The descriptors that are given out from `n` on, two for each process.
abbrev pub numbered : {A : Type 0} → ℕ → List A → List Ends
numbered n [] = []
numbered n (_ ∷ procs) = record { in_fd = n; out_fd = n + 1 } ∷ numbered (n + 2) procs

-- A file of one owner, who alone may read it.
abbrev pub secret : Bytes → Owner → Entry
secret text owner = record { content = some text; owner = some owner; mode = some owner_reads }

module _ {I Pi P G F : Type 0} (lib : Libraries I Pi P G F) where
  abbrev pub streams_of : P → ℕ → Option (Stream Pi)
  streams_of proc = (lib.process.look proc).streams

  abbrev pub ids : List P → List I
  ids procs = map (λ proc. (lib.process.look proc).id) procs

  abbrev pub ConnectedAll : (ℕ → Option (Stream Pi)) → List (Process I) → List P → Type 0
  ConnectedAll streams [] [] = Unit
  ConnectedAll streams [] (_ ∷ _) = ⊥
  ConnectedAll streams (_ ∷ _) [] = ⊥
  ConnectedAll streams (cfg ∷ cfgs) (proc ∷ procs) =
      Connected streams cfg (lib.process.look proc) × ConnectedAll streams cfgs procs

  abbrev pub IsFree : P → Type 0
  IsFree proc =
      ((lib.process.look proc).terminate_group_on_crash ≡ false)
      × ((lib.process.look proc).group_waits_for_termination ≡ false)

  -- The options that are read, whose descriptors, from 3 on, are the broker's ends of the pipes of
  -- the process that they stand for.
  abbrev pub WiredBy : Options I → Bytes → Configurator P G F → Configurator P G F → Type 0
  WiredBy options bc c c' =
      (read_options lib.broker_json (lib.filesystem.entry c'.files bc).content ≡ ok options)
      × ((options.protocol ≡ c.protocol)
          × (options.tokenizer ≡ c.tokenizer)
          × (options.default_limits ≡ c.default_limits)
          × (options.default_argument ≡ []))
      × ConnectedAll (lib.process.look c'.broker).streams
          (options.killer ∷ options.judge ∷ options.solutions) (c'.killer ∷ c'.judge ∷ c'.solutions)
      × ((lib.filesystem.entry c'.files bc).owner ≡ some (lib.process.look c'.broker).owner)
      × ((lib.filesystem.entry c'.files bc).mode ≡ some owner_reads)
      × ((lib.process.look c'.broker).arguments ≡ (lib.process.look c'.broker).executable ∷ bc ∷ [])
      × (map (λ (cfg : Process I). cfg.ends) (options.killer ∷ options.judge ∷ options.solutions)
          ≡ numbered 3 (c.killer ∷ c.judge ∷ c.solutions))

  abbrev pub Wired : Bytes → Configurator P G F → Configurator P G F → Type 0
  Wired bc c c' = (options : Options I) × WiredBy options bc c c'

  abbrev pub killer_options : Configurator P G F → KillerOptions I
  killer_options c = record { unprotected = ids c.solutions; pattern = default_pattern }

  -- The killer and its file belong to root, who alone may read the file, and which names the
  -- solutions; its path is the argument of the killer. The solutions may crash and be left behind.
  abbrev pub Guarded : Bytes → Configurator P G F → Configurator P G F → Type 0
  Guarded kc c c' =
      (lib.filesystem.entry c'.files kc ≡ secret (lib.killer_json.write (killer_options c)) root)
      × ((lib.process.look c'.killer).owner ≡ root)
      × ((lib.process.look c'.killer).arguments ≡ (lib.process.look c'.killer).executable ∷ kc ∷ [])
      × ((lib.process.look c'.judge).arguments
          ≡ (lib.process.look c'.judge).executable ∷ lib.size_to_string (length c.solutions) ∷ [])
      × All IsFree c'.solutions
