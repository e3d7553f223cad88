-- ===== src/Configurator.antt =====
-- src/lib/Configurator.cpp: it connects the processes of a game by pipes, and writes the options of
-- the broker and of the killer.
pub mod Spec
pub mod Pipes
pub mod Steps
pub mod Wired
pub mod Guarded
pub mod Once
pub mod Started
use deprecated_yandex_contes.Base.{
  ℕ, ◌+◌, Bool, true, false, List, [], ◌∷◌, Bytes, codes, length, Result, ok, ◌>>=◌,
}
use deprecated_yandex_contes.Invoker.{
  Owner, file, read_end, write_end, ProcessOps, GroupOps, FileOps,
}
use deprecated_yandex_contes.Text.Json.{Json}
use deprecated_yandex_contes.Broker.Types.{ResourceLimits}
use deprecated_yandex_contes.Broker.State.{Process, Protocol, Options}
use deprecated_yandex_contes.Broker.Options.{SavedOptions, serialize}
use deprecated_yandex_contes.Killer.Impl.{KillerOptions}

-- `Configurator`, with the processes, the group and the files that its pointers lead to. The
-- pointers to the processes are different.
pub record Configurator (P G F : Type 0) : Type 0 where
  pub files : F
  pub group : G
  pub broker : P
  pub killer : P
  pub judge : P
  pub solutions : List P
  pub protocol : Protocol
  pub killer_log : Bytes
  pub judge_log : Bytes
  pub broker_log : Bytes
  pub tokenizer : Bytes
  pub default_limits : ResourceLimits
  pub default_argument : Bytes
  pub configured : Bool

-- What the lambda `connect` captures: the group, the broker, and the next descriptor of the broker.
pub record Wiring (P G : Type 0) : Type 0 where
  pub group : G
  pub broker : P
  pub broker_fd : ℕ

-- The library's functions: the methods of its classes, the JSON files of both options, and
-- `lexical_cast` from a size to a string.
pub record Libraries (I Pi P G F : Type 0) : Type 0 where
  pub process : ProcessOps I Pi P
  pub pipes : GroupOps Pi G
  pub filesystem : FileOps F
  pub broker_json : Json (SavedOptions I)
  pub killer_json : Json (KillerOptions I)
  pub size_to_string : ℕ → Bytes

-- `pattern` of `KillerImpl::Options`, by default.
abbrev pub default_pattern : Bytes
default_pattern = codes "id_%1%"

-- The mode 0400: its owner may read the file.
abbrev pub owner_reads : ℕ
owner_reads = 256

abbrev pub root : Owner
root = record { uid = 0; gid = 0 }

module _ {I Pi P G F : Type 0} (lib : Libraries I Pi P G F) where
  -- The lambda `connect`.
  unfoldable pub connect : P → Wiring P G → Result (P × Process I × Wiring P G)
  connect proc w = do
    (input, group) ← lib.pipes.create_pipe w.group
    (output, group') ← lib.pipes.create_pipe group
    let set = lib.process.set_stream
    let in_fd = w.broker_fd
    let out_fd = w.broker_fd + 1
    let broker = set out_fd (read_end output) (set in_fd (write_end input) w.broker)
    ok (
      set 1 (write_end output) (set 0 (read_end input) proc),
      record { ends = record { in_fd = in_fd; out_fd = out_fd }; id = (lib.process.look proc).id },
      record { group = group'; broker = broker; broker_fd = w.broker_fd + 2 },
    )

  -- The loop over the solutions: each is connected, its identifier goes into
  -- `killerOptions.unprotected`, and it may crash and may outlive the broker.
  unfoldable pub connect_all :
      List P → Wiring P G → Result (List P × List (Process I) × List I × Wiring P G)
  connect_all [] w = ok ([], [], [], w)
  connect_all (proc ∷ procs) w = do
    (connected, cfg, w') ← connect proc w
    let solution =
        lib.process.set_group_waits_for_termination false
          (lib.process.set_terminate_group_on_crash false connected)
    (solutions, cfgs, unprotected, w'') ← connect_all procs w'
    ok (solution ∷ solutions, cfg ∷ cfgs, (lib.process.look connected).id ∷ unprotected, w'')

  -- `dumpOptions`, of what the options are in JSON.
  unfoldable pub dump_options : F → P → Bytes → Bytes → Result (F × P)
  dump_options files proc json path = do
    written ← lib.filesystem.write (lib.filesystem.keep_in_root path) json files
    owned ← lib.filesystem.set_owner_id path (lib.process.look proc).owner written
    restricted ← lib.filesystem.set_mode path owner_reads owned
    ok (restricted, lib.process.set_arguments (lib.process.look proc).executable path proc)

  -- What `configure` does the first time. The members of the options are set in another order, and
  -- nothing reads them before the end.
  unfoldable pub set_up : Bytes → Bytes → Configurator P G F → Result (Configurator P G F)
  set_up broker_config killer_config c = do
    let broker₀ = lib.process.set_stream 2 (file c.broker_log) c.broker
    (killer₁, killer_cfg, w₁) ←
        connect c.killer (record { group = c.group; broker = broker₀; broker_fd = 3 })
    let killer₂ =
        lib.process.set_owner_id root (lib.process.set_stream 2 (file c.killer_log) killer₁)
    (judge₁, judge_cfg, w₂) ← connect c.judge w₁
    let judge₂ = lib.process.set_stream 2 (file c.judge_log) judge₁
    (solutions, cfgs, unprotected, w₃) ← connect_all c.solutions w₂
    let broker_options : Options I = record {
      protocol = c.protocol;
      tokenizer = c.tokenizer;
      solutions = cfgs;
      killer = killer_cfg;
      judge = judge_cfg;
      default_limits = c.default_limits;
      default_argument = c.default_argument;
    }
    let killer_options : KillerOptions I = record {
      unprotected = unprotected;
      pattern = default_pattern;
    }
    (files₁, broker₁) ←
        dump_options c.files w₃.broker (lib.broker_json.write (serialize broker_options))
          broker_config
    (files₂, killer₃) ←
        dump_options files₁ killer₂ (lib.killer_json.write killer_options) killer_config
    let judge₃ =
        lib.process.set_arguments (lib.process.look judge₂).executable
          (lib.size_to_string (length c.solutions)) judge₂
    ok (record c {
      files = files₂;
      group = w₃.group;
      broker = broker₁;
      killer = killer₃;
      judge = judge₃;
      solutions = solutions;
      configured = true;
    })

  -- `configure`, with the paths of both files.
  unfoldable pub configure : Bytes → Bytes → Configurator P G F → Result (Configurator P G F)
  configure broker_config killer_config c = elim c.configured [
    | true ↦ ok c
    | false ↦ set_up broker_config killer_config c
  ]
