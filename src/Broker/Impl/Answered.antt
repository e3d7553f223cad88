-- ===== src/Broker/Impl/Answered.antt =====
-- An `end` of src/lib/BrokerImpl.cpp returns an answer of the tokenizer, if the solution's output has
-- one in time.
use deprecated_yandex_contes.Base.{
  ℕ, Bool, true, false, [], ◌∷◌, ◌++◌, Bytes, some, none, get_elem?, if◌then◌else◌, ok, ◌≡◌, ◌≢◌,
  ◌⊎◌, refl, ap, ◌∙◌, inl, inr,
}
use deprecated_yandex_contes.Tokenizer.{
  Status, fail, continue, accepted, TokenizerResult, TokenizerLibrary, tokenize,
}
use deprecated_yandex_contes.Tokenizer.Laws.{IsTokenizer}
use deprecated_yandex_contes.Killer.{KillerOps, KillerStatus}
use deprecated_yandex_contes.Broker.Types.{BrokerResult, ResultStatus, ok_status, tokenizer_error}
use deprecated_yandex_contes.Broker.Communicate.{
  Environment, Comm, is_continue, until_point, communicate,
}
use deprecated_yandex_contes.Broker.Communicate.Events.{BringAll}
use deprecated_yandex_contes.Broker.Communicate.Answered.{Waiting, comm_loop-answered}
use deprecated_yandex_contes.Broker.State.{
  Solution, EndEnv, BrokerImpl, put_solution, reset, comm_of, solution_of,
}
use deprecated_yandex_contes.Broker.Impl.{
  is_protected, freeze, unfreeze, communicate_with, transfer, verdict, talk, conclude, end_in,
}
use deprecated_yandex_contes.Broker.Impl.Frame.{solution_at, put_solution_self}

module _ {I T K : Type 0} (lib : TokenizerLibrary T) (killer : KillerOps I K) where
  verdict-answered :
      (s : Status) (sol : Solution I T)
      → is_continue s ≡ false
      → ((verdict lib s sol).status ≡ ok_status) ⊎ ((verdict lib s sol).status ≡ tokenizer_error)
  unfolding verdict
  verdict-answered accepted sol h = inl refl
  verdict-answered fail sol h = inr refl
  verdict-answered continue sol h = cc

  unfreeze-ok_at :
      (id : ℕ) (b : BrokerImpl I T K) (sol : Solution I T) (s : KillerStatus) (k : K)
      → get_elem? b.solutions id ≡ some sol
      → killer.unfreeze sol.process.id b.killer ≡ ok (s, k)
      → is_protected s ≡ false
      → unfreeze killer id b ≡ ok (record b { killer = k })
  unfolding unfreeze
  unfreeze-ok_at id b sol s k at p fine = rw (solution_at id b at, p, fine) refl

  freeze-ok_at :
      (id : ℕ) (b : BrokerImpl I T K) (sol : Solution I T) (s : KillerStatus) (k : K)
      → get_elem? b.solutions id ≡ some sol
      → killer.freeze sol.process.id b.killer ≡ ok (s, k)
      → is_protected s ≡ false
      → freeze killer id b ≡ ok (record b { killer = k })
  unfolding freeze
  freeze-ok_at id b sol s k at p fine = rw (solution_at id b at, p, fine) refl

  transfer-ok :
      (env : Environment) (sol : Solution I T) (t : T) (c : Comm T) (s : ResultStatus)
      → sol.tokenizer ≡ some t
      → communicate lib sol.process.ends sol.resource_limits.real_time_limit env (comm_of t sol)
        ≡ ok (c, s)
      → transfer lib env sol ≡ ok (solution_of sol c, s, c)
  unfolding transfer communicate_with
  transfer-ok env sol t c s tok p =
      ap (communicate_with lib env sol) tok ∙ rw (communicate_with, p) refl

  -- The state behind the pipes of a talk.
  abbrev noted : ℕ → Comm T → K → BrokerImpl I T K → BrokerImpl I T K
  noted id c k b = record b {
    killer = k;
    traffic =
        b.traffic
        ++ (record { id = id; delivered = c.writer.delivered; taken = c.reader.taken }) ∷ [];
  }

  abbrev passed : ℕ → Solution I T → Comm T → K → BrokerImpl I T K → BrokerImpl I T K
  passed id sol c k b = put_solution id (solution_of sol c) (noted id c k b)

  abbrev discarded : Bool → Solution I T → Solution I T
  discarded discard sol = record sol { inbuf = if discard then [] else sol.inbuf }

  conclude-ok :
      (id : ℕ) (discard : Bool) (b : BrokerImpl I T K) (sol : Solution I T)
      → get_elem? b.solutions id ≡ some sol
      → (b' : BrokerImpl I T K) × (conclude lib killer id discard ok_status b
          ≡ ok (verdict lib sol.tokenizer_status (discarded discard sol), b'))
  unfolding conclude reset
  conclude-ok id discard b sol at =
      let sol' = discarded discard sol in
      let b' = put_solution id sol' b in
      (
        put_solution id (record sol' { tokenizer = none }) b',
        rw (solution_at id b at, solution_at id b' (put_solution_self id b sol' at)) refl,
      )

  module _ (id : ℕ) (b : BrokerImpl I T K) (sol : Solution I T)
      (at : get_elem? b.solutions id ≡ some sol) (s₁ s₂ : KillerStatus) (k₁ k₂ : K)
      (thaws : killer.unfreeze sol.process.id b.killer ≡ ok (s₁, k₁))
      (thawed : is_protected s₁ ≡ false) (freezes : killer.freeze sol.process.id k₁ ≡ ok (s₂, k₂))
      (frozen : is_protected s₂ ≡ false) where
    talk-ok :
        (env : Environment) (c : Comm T) (s : ResultStatus)
        → transfer lib env sol ≡ ok (solution_of sol c, s, c)
        → talk lib killer id env b ≡ ok (s, record (passed id sol c k₁ b) { killer = k₂ })
    unfolding talk put_solution
    talk-ok env c s moved =
        rw
          (
            unfreeze-ok_at id b sol s₁ k₁ at thaws thawed,
            solution_at id (record b { killer = k₁ }) at,
            moved,
            freeze-ok_at id (passed id sol c k₁ b) (solution_of sol c) s₂ k₂
                (put_solution_self id (noted id c k₁ b) (solution_of sol c) at) freezes frozen,
          )
          refl

    end_in-ok :
        (env : EndEnv) (discard : Bool) (t : T) (c : Comm T)
        → sol.tokenizer ≡ some t
        → is_continue sol.tokenizer_status ≡ true
        → communicate lib sol.process.ends sol.resource_limits.real_time_limit env.environment
            (comm_of t sol)
          ≡ ok (c, ok_status)
        → (b' : BrokerImpl I T K) × (end_in lib killer env id discard b
            ≡ ok (verdict lib c.reader.status (discarded discard (solution_of sol c)), b'))
    unfolding end_in put_solution
    end_in-ok env discard t c tok waits p =
        let b₂ = record (passed id sol c k₁ b) { killer = k₂ } in
        let moved = transfer-ok env.environment sol t c ok_status tok p in
        let (b', q) =
          conclude-ok id discard b₂ (solution_of sol c)
            (put_solution_self id (noted id c k₁ b) (solution_of sol c) at) in
        (b', rw (solution_at id b at, tok, waits, talk-ok env.environment c ok_status moved) q)

    module _ (Ready : T → Type 0) (t₀ : T) (law : IsTokenizer lib Ready) where
      -- An end of BrokerImpl in an iteration whose tokenizer waits returns a result with the status
      -- ok or the error of the tokenizer, if each round brings, before the time limit, which is the
      -- sum of the reading of the clock and the real time limit as 64 bits of nanoseconds hold it,
      -- events at the two pipes of the solution, where writing succeeds without an error or a
      -- hang-up and reading brings output, and a single call of the tokenizer on all of this output
      -- has an answer. The killer thaws and freezes the process without refusal, epoll can be set
      -- up, the tokenizer keeps its contract and waits on the output so far, which the solution
      -- holds, and the two descriptors differ.
      pub end_in-answered :
          (env : EndEnv) (discard : Bool) (t : T) (seen bytes : Bytes) (q : T) (r : TokenizerResult)
          → sol.tokenizer ≡ some t
          → sol.process.ends.in_fd ≢ sol.process.ends.out_fd
          → env.environment.epoll_ready ≡ true
          → Waiting lib Ready t₀ law seen (comm_of t sol).reader
          → BringAll sol.process.ends
              (until_point env.environment.start sol.resource_limits.real_time_limit)
              (comm_of t sol).writer
              env.environment.rounds
              bytes
          → tokenize lib t₀ (seen ++ bytes) ≡ ok (q, r)
          → is_continue r.status ≡ false
          → (result : BrokerResult) × (b' : BrokerImpl I T K) × (end_in lib killer env id discard b
              ≡ ok (result, b'))
            × ((result.status ≡ ok_status) ⊎ (result.status ≡ tokenizer_error))
      unfolding communicate
      end_in-answered env discard t seen bytes q r tok apart ready waiting brought answered answer =
          let (c, p, stop, _) =
            comm_loop-answered lib Ready t₀ law sol.process.ends
              (until_point env.environment.start sol.resource_limits.real_time_limit) apart
              env.environment.rounds (comm_of t sol) seen bytes q r waiting brought answered
              answer in
          let waits : is_continue sol.tokenizer_status ≡ true = ap is_continue waiting.0 in
          let talked : communicate lib sol.process.ends sol.resource_limits.real_time_limit
                env.environment (comm_of t sol)
              ≡ ok (c, ok_status) =
            rw (communicate, ready) p in
          let (b', e) = end_in-ok env discard t c tok waits talked in
          (_, b', e, verdict-answered c.reader.status (discarded discard (solution_of sol c)) stop)
