-- ===== src/Configurator/Pipes.antt =====
-- The pipes between the broker and the processes that the lambda `connect` of
-- src/lib/Configurator.cpp has connected.
use deprecated_yandex_contes.Base.{
  All, map, ℕ, ◌+◌, ◌<◌, false, List, [], ◌∷◌, Option, some, ◌==◌, if◌then◌else◌, ok, >>=-eq-ok,
  ok-injective, ◌≡◌, refl, sym, ap, subst, ◌∙◌, arith,
}
use deprecated_yandex_contes.Invoker.{Stream, read_end, write_end, Settings, ProcessOps, IsProcess}
use deprecated_yandex_contes.Broker.State.{Process}
use deprecated_yandex_contes.Configurator.Spec.{
  Connected, Below, numbered, streams_of, ids, ConnectedAll, IsFree,
}
use deprecated_yandex_contes.Configurator.{Wiring, Libraries, connect, connect_all}

pub Connected-Below :
    {I Pi : Type 0} (n : ℕ) (before after : ℕ → Option (Stream Pi)) (cfg : Process I)
    (proc : Settings I Pi)
    → Connected before cfg proc
    → cfg.ends.in_fd < n
    → cfg.ends.out_fd < n
    → Below n before after
    → Connected after cfg proc
Connected-Below n before after cfg proc (input, output, a, b, c, d, e) low high same =
    (input, output, a, b, same cfg.ends.in_fd low ∙ c, same cfg.ends.out_fd high ∙ d, e)

module _ {A : Type 0} (x y z : A) where
  picked_low : (n : ℕ) → (if n == n + 1 then x else (if n == n then y else z)) ≡ y
  picked_low n = ground arith

  picked_high : (n : ℕ) → (if n + 1 == n + 1 then x else (if n + 1 == n then y else z)) ≡ x
  picked_high n = ground arith

  picked_none : (n m : ℕ) → m < n → (if m == n + 1 then x else (if m == n then y else z)) ≡ z
  picked_none n m lt = ground arith

module _ {I Pi P : Type 0} (ops : ProcessOps I Pi P) (laws : IsProcess ops) where
  streams-set_both :
      (a b n : ℕ) (s t : Stream Pi) (x : P)
      → (ops.look (ops.set_stream a s (ops.set_stream b t x))).streams n
        ≡ (if n == a then some s else (if n == b then some t else (ops.look x).streams n))
  streams-set_both a b n s t x =
      ap (λ (y : Settings I Pi). y.streams n) (laws.look-set_stream a s (ops.set_stream b t x))
      ∙ ap (λ (y : Settings I Pi). if n == a then some s else y.streams n)
          (laws.look-set_stream b t x)

  id-set_both :
      (a b : ℕ) (s t : Stream Pi) (x : P)
      → (ops.look (ops.set_stream a s (ops.set_stream b t x))).id ≡ (ops.look x).id
  id-set_both a b s t x =
      ap (λ (y : Settings I Pi). y.id) (laws.look-set_stream a s (ops.set_stream b t x))
      ∙ ap (λ (y : Settings I Pi). y.id) (laws.look-set_stream b t x)

module _ {I Pi P G F : Type 0} (lib : Libraries I Pi P G F) where
  -- What a call of `connect` leaves of the wiring and of the process.
  abbrev pub Made : P → Wiring P G → P × Process I × Wiring P G → Type 0
  Made proc w (proc', cfg, w') =
      Connected (streams_of lib w'.broker) cfg (lib.process.look proc')
      × (cfg.ends ≡ record { in_fd = w.broker_fd; out_fd = w.broker_fd + 1 })
      × (w'.broker_fd ≡ w.broker_fd + 2)
      × Below w.broker_fd (streams_of lib w.broker) (streams_of lib w'.broker)
      × ((lib.process.look proc').id ≡ (lib.process.look proc).id)

  -- The same for the loop over the solutions.
  abbrev pub MadeAll :
      List P → Wiring P G → List P × List (Process I) × List I × Wiring P G → Type 0
  MadeAll procs w (procs', cfgs, unprotected, w') =
      ConnectedAll lib (streams_of lib w'.broker) cfgs procs'
      × (map (λ (cfg : Process I). cfg.ends) cfgs ≡ numbered w.broker_fd procs)
      × (unprotected ≡ ids lib procs)
      × Below w.broker_fd (streams_of lib w.broker) (streams_of lib w'.broker)
      × All (IsFree lib) procs'

module _ {I Pi P G F : Type 0} (lib : Libraries I Pi P G F) (laws : IsProcess lib.process) where
  pub connect-Made :
      (proc : P) (w : Wiring P G) {r : P × Process I × Wiring P G}
      → connect lib proc w ≡ ok r
      → Made lib proc w r
  unfolding connect
  connect-Made proc w e =
      let ((input, group), _, f) = >>=-eq-ok (lib.pipes.create_pipe w.group) _ e in
      let ((output, group'), _, g) = >>=-eq-ok (lib.pipes.create_pipe group) _ f in
      let n = w.broker_fd in
      subst (Made lib proc w) (ok-injective g) (
        (
          input,
          output,
          streams-set_both lib.process laws 1 0 0 (write_end output) (read_end input) proc,
          streams-set_both lib.process laws 1 0 1 (write_end output) (read_end input) proc,
          streams-set_both lib.process laws (n + 1) n n (read_end output) (write_end input) w.broker
              ∙ picked_low (some (read_end output)) (some (write_end input))
                  (streams_of lib w.broker n) n,
          streams-set_both lib.process laws (n + 1) n (n + 1) (read_end output) (write_end input)
                w.broker
              ∙ picked_high (some (read_end output)) (some (write_end input))
                  (streams_of lib w.broker (n + 1)) n,
          sym (id-set_both lib.process laws 1 0 (write_end output) (read_end input) proc),
        ),
        refl,
        refl,
        λ m lt.
            streams-set_both lib.process laws (n + 1) n m (read_end output) (write_end input)
              w.broker
            ∙ picked_none (some (read_end output)) (some (write_end input))
                (streams_of lib w.broker m) n m lt,
        id-set_both lib.process laws 1 0 (write_end output) (read_end input) proc,
      )

  abbrev freed : P → P
  freed proc =
      lib.process.set_group_waits_for_termination false
        (lib.process.set_terminate_group_on_crash false proc)

  look-freed :
      (proc : P)
      → lib.process.look (freed proc) ≡ record (lib.process.look proc) {
        terminate_group_on_crash = false;
        group_waits_for_termination = false;
      }
  look-freed proc =
      laws.look-set_group_waits_for_termination false
        (lib.process.set_terminate_group_on_crash false proc)
      ∙ ap (λ (x : Settings I Pi). record x { group_waits_for_termination = false })
          (laws.look-set_terminate_group_on_crash false proc)

  freed-Connected :
      (streams : ℕ → Option (Stream Pi)) (cfg : Process I) (proc : P)
      → Connected streams cfg (lib.process.look proc)
      → Connected streams cfg (lib.process.look (freed proc))
  freed-Connected streams cfg proc h = rw (look-freed proc) h

  freed-IsFree : (proc : P) → IsFree lib (freed proc)
  freed-IsFree proc = rw (look-freed proc) (refl, refl)

  MadeAll-cons :
      (proc proc' : P) (procs procs' : List P) (cfg : Process I) (cfgs : List (Process I))
      (unprotected : List I) (w w₁ w₂ : Wiring P G)
      → Made lib proc w (proc', cfg, w₁)
      → MadeAll lib procs w₁ (procs', cfgs, unprotected, w₂)
      → MadeAll lib
          (proc ∷ procs)
          w
          (freed proc' ∷ procs', cfg ∷ cfgs, (lib.process.look proc').id ∷ unprotected, w₂)
  MadeAll-cons proc proc' procs procs' cfg cfgs unprotected w w₁ w₂ (wired, ends, next, below, same)
        (wired_all, rest, unp, below', free) =
      let n = w.broker_fd in
      let low : cfg.ends.in_fd < w₁.broker_fd = rw (ends, next) (omega arith) in
      let high : cfg.ends.out_fd < w₁.broker_fd = rw (ends, next) (omega arith) in
      (
        (
          freed-Connected (streams_of lib w₂.broker) cfg proc' (
              Connected-Below w₁.broker_fd (streams_of lib w₁.broker) (streams_of lib w₂.broker) cfg
                (lib.process.look proc') wired low high below'),
          wired_all,
        ),
        rw (ends, rest, next) refl,
        rw (same, unp) refl,
        (λ m lt. below' m (omega (arith, next, lt)) ∙ below m lt),
        (freed-IsFree proc', free),
      )

  pub connect_all-MadeAll :
      (procs : List P) (w : Wiring P G) {r : List P × List (Process I) × List I × Wiring P G}
      → connect_all lib procs w ≡ ok r
      → MadeAll lib procs w r
  unfolding connect_all
  connect_all-MadeAll [] w e =
      subst (MadeAll lib [] w) (ok-injective e) (tt, refl, refl, (λ m lt. refl), tt)
  connect_all-MadeAll (proc ∷ procs) w e =
      let ((proc', cfg, w₁), p, f) = >>=-eq-ok (connect lib proc w) _ e in
      let ((procs', cfgs, unprotected, w₂), q, g) = >>=-eq-ok (connect_all lib procs w₁) _ f in
      subst (MadeAll lib (proc ∷ procs) w) (ok-injective g) (
        MadeAll-cons proc proc' procs procs' cfg cfgs unprotected w w₁ w₂ (connect-Made proc w p)
          (connect_all-MadeAll procs w₁ q))
