-- ===== src/Broker/Impl.antt =====
-- src/lib/BrokerImpl.cpp: the broker's operations on its solutions.
pub mod Answer
pub mod Answered
pub mod Balance
pub mod Flow
pub mod Frame
pub mod Fresh
pub mod Frozen
pub mod Turn
pub mod Turns
pub mod Uninitialised
pub mod Settings
pub mod Reason
pub mod Verdict
pub mod Iteration
pub mod Limit
pub mod Nonblocking
pub mod Protocol
pub mod Simulation
pub mod Remote
use mathlib.Core.Option
use deprecated_yandex_contes.Base.{
  ℕ, zero, suc, ◌+◌, Bool, true, false, not, List, [], ◌∷◌, ◌++◌, Option, none, some, Bytes, length,
  map, if◌then◌else◌, Result, ok, err, ◌>>=◌, ◌>>◌, assert, assertion, pending,
}
use deprecated_yandex_contes.Tokenizer.{
  Status, fail, continue, accepted, TokenizerLibrary, instance_of, tokenize, explain,
}
use deprecated_yandex_contes.Killer.{KillerStatus, protected_status, KillerOps}
use deprecated_yandex_contes.Killer
use deprecated_yandex_contes.Broker.Types.{
  default_limits, ResourceLimits, BrokerResult, ResultStatus, ok_status, tokenizer_error, eof_error,
}
use deprecated_yandex_contes.Broker.Interface.{BrokerOps}
use deprecated_yandex_contes.Broker.State.{
  Solution, Options, EndEnv, Traffic, BrokerImpl, comm_of, solution_of, new_solution, is_null,
  leftover, solution, put_solution, send, reset,
}
use deprecated_yandex_contes.Broker.Descriptors.{Fcntl, setnonblock}
use deprecated_yandex_contes.Broker.Communicate.{Environment, Comm, is_continue, communicate}

abbrev pub is_protected : KillerStatus → Bool
is_protected protected_status = true
is_protected _ = false

abbrev pub is_ok : ResultStatus → Bool
is_ok ok_status = true
is_ok _ = false

module _ {I T K : Type 0} (killer : KillerOps I K) where
  -- `freeze` and `unfreeze`; nobody looks at the status that they return.
  unfoldable pub freeze : ℕ → BrokerImpl I T K → Result (BrokerImpl I T K)
  unfolding solution
  freeze id b = do
    sol ← solution id b
    (status, k) ← killer.freeze sol.process.id b.killer
    assert (not (is_protected status))
    ok (record b { killer = k })

  unfoldable pub unfreeze : ℕ → BrokerImpl I T K → Result (BrokerImpl I T K)
  unfolding solution
  unfreeze id b = do
    sol ← solution id b
    (status, k) ← killer.unfreeze sol.process.id b.killer
    assert (not (is_protected status))
    ok (record b { killer = k })

  -- `terminate`; a failure of the killer is only logged.
  unfoldable pub terminate : ℕ → BrokerImpl I T K → Result (BrokerImpl I T K)
  unfolding solution put_solution
  terminate id b = do
    sol ← solution id b
    (_, k) ← killer.terminate sol.process.id b.killer
    let cleared = record sol { tokenizer = none; inbuf = []; outbuf = [] }
    ok (put_solution id cleared (record b { killer = k }))

  -- The loop of the constructor, over the solutions from `id` on: each is frozen, its descriptors
  -- are made non-blocking, and it gets the default limits.
  unfoldable pub setup_from :
      {D : Type 0} → Fcntl D → ℕ → ℕ → D → BrokerImpl I T K → Result (D × BrokerImpl I T K)
  setup_from fcntl id zero fds b = ok (fds, b)
  setup_from fcntl id (suc count) fds b = do
    b₁ ← freeze id b
    sol ← solution id b₁
    fds₁ ← setnonblock fcntl sol.process.ends.in_fd fds
    fds₂ ← setnonblock fcntl sol.process.ends.out_fd fds₁
    let limited = record sol { resource_limits = b.default_limits }
    setup_from fcntl (id + 1) count fds₂ (put_solution id limited b₁)

  -- The constructor, with the descriptors behind it. `status`: what the memory of a new
  -- `tokenizerStatus` holds.
  unfoldable pub construct :
      {D : Type 0}
      → Options I
      → Fcntl D
      → D
      → Status
      → K
      → List EndEnv
      → Result (D × BrokerImpl I T K)
  construct options fcntl fds status k ahead =
      setup_from fcntl 0 (length options.solutions) fds (record {
        default_limits = options.default_limits;
        default_argument = options.default_argument;
        solutions = map (new_solution status) options.solutions;
        killer = k;
        ahead = ahead;
        traffic = [];
      })

  unfoldable pub new_broker :
      {D : Type 0} → Options I → Fcntl D → D → Status → K → List EndEnv → Result (BrokerImpl I T K)
  unfolding construct
  new_broker options fcntl fds status k ahead = do
    (_, b) ← construct options fcntl fds status k ahead
    ok b

module _ {T : Type 0} (lib : TokenizerLibrary T) where
  -- `tokenizer->what()`, or nothing if that is a null pointer.
  unfoldable pub message : Option T → Bytes
  message none = []
  message (some t) = Option.get_or (explain lib t) []

module _ {I T : Type 0} (lib : TokenizerLibrary T) where
  -- `if (!sol.outbuf.empty())` in `begin`; the last argument is the buffer again.
  unfoldable pub scan_outbuf : T → Solution I T → Bytes → Result (Solution I T)
  scan_outbuf t sol [] = ok sol
  scan_outbuf t sol (_ ∷ _) = do
    (t', r) ← tokenize lib t sol.outbuf
    let answered = record sol { tokenizer = some t'; tokenizer_status = r.status }
    ok (leftover answered r r.status)

  -- `communicate(id)` on the solution's fields; the last argument is its tokenizer again. The last
  -- part of the result is what went through the pipes.
  unfoldable pub communicate_with :
      Environment → Solution I T → Option T → Result (Solution I T × ResultStatus × Comm T)
  communicate_with env sol none = err assertion
  communicate_with env sol (some t) = do
    (c, status) ←
        communicate lib sol.process.ends sol.resource_limits.real_time_limit env (comm_of t sol)
    ok (solution_of sol c, status, c)

  unfoldable pub transfer :
      Environment → Solution I T → Result (Solution I T × ResultStatus × Comm T)
  transfer env sol = communicate_with env sol sol.tokenizer

  -- The result for the status of the tokenizer.
  unfoldable pub verdict : Status → Solution I T → BrokerResult
  verdict fail sol = record { status = tokenizer_error; payload = message lib sol.tokenizer }
  verdict continue sol = record { status = eof_error; payload = [] }
  verdict accepted sol = record { status = ok_status; payload = sol.result }

module _ {I T K : Type 0} (lib : TokenizerLibrary T) where
  unfoldable pub begin_with :
      ℕ → Bytes → ResourceLimits → BrokerImpl I T K → Result (BrokerImpl I T K)
  unfolding solution put_solution
  begin_with id argument limits b = do
    sol ← solution id b
    assert (is_null sol.tokenizer)
    t ← instance_of lib argument
    let begun = record sol {
      tokenizer = some t;
      tokenizer_status = continue;
      result = [];
      resource_limits = limits;
    }
    sol' ← scan_outbuf lib t begun begun.outbuf
    ok (put_solution id sol' b)

  unfoldable pub begin_as : ℕ → Bytes → BrokerImpl I T K → Result (BrokerImpl I T K)
  begin_as id argument b = begin_with id argument b.default_limits b

  unfoldable pub begin : ℕ → BrokerImpl I T K → Result (BrokerImpl I T K)
  begin id b = begin_as id b.default_argument b

module _ {I T K : Type 0} (lib : TokenizerLibrary T) (killer : KillerOps I K) where
  -- The part of `end` for a tokenizer that waits for output: the solution runs meanwhile.
  unfoldable pub talk :
      ℕ → Environment → BrokerImpl I T K → Result (ResultStatus × BrokerImpl I T K)
  talk id env b = do
    b₁ ← unfreeze killer id b
    sol ← solution id b₁
    (sol', status, c) ← transfer lib env sol
    let flow : Traffic = record { id = id; delivered = c.writer.delivered; taken = c.reader.taken }
    b₂ ← freeze killer id (put_solution id sol' (record b₁ { traffic = b₁.traffic ++ flow ∷ [] }))
    ok (status, b₂)

  -- `end`, from `if (discardRemaining)` on, with the value of `result.status`.
  unfoldable pub conclude :
      ℕ → Bool → ResultStatus → BrokerImpl I T K → Result (BrokerResult × BrokerImpl I T K)
  conclude id discard status b = do
    sol ← solution id b
    let sol' = record sol { inbuf = if discard then [] else sol.inbuf }
    let b' = put_solution id sol' b
    elim (is_ok status) [
      | true ↦ do b'' ← reset id b'; ok (verdict lib sol.tokenizer_status sol', b'')
      | false ↦ do
        b₁ ← terminate killer id b'
        b₂ ← reset id b₁
        ok (record { status = status; payload = [] }, b₂)
    ]

  -- `end`.
  unfoldable pub end_in :
      EndEnv → ℕ → Bool → BrokerImpl I T K → Result (BrokerResult × BrokerImpl I T K)
  end_in env id discard b = do
    sol ← solution id b
    assert (not (is_null sol.tokenizer))
    (status, b') ← elim (is_continue sol.tokenizer_status) [
      | true ↦ talk id env.environment b
      | false ↦ ok (env.uninitialised, b)
    ]
    conclude id discard status b'

  unfoldable pub end : ℕ → Bool → BrokerImpl I T K → Result (BrokerResult × BrokerImpl I T K)
  end id discard b = elim b.ahead [
    | [] ↦ err pending
    | env ∷ rest ↦ end_in env id discard (record b { ahead = rest })
  ]

  -- The virtual methods of `BrokerImpl`.
  abbrev pub impl : BrokerOps (BrokerImpl I T K)
  impl = record {
    begin_with = begin_with lib;
    begin_as = begin_as lib;
    begin = begin lib;
    send = send;
    end = end;
    terminate = terminate killer;
  }
