-- ===== src/Tests/Configurator/Processes.antt =====
-- The killer and the broker of the configured game.
use deprecated_yandex_contes.Base.{
  inr, ℕ, true, false, List, [], ◌∷◌, none, some, Bytes, codes, ok, err, assertion, ◌>>=◌, ◌≡◌,
  refl, inl,
}
use deprecated_yandex_contes.Tokenizer.{DynamicLibrary, new_factory, continue}
use deprecated_yandex_contes.Tokenizer.SplitChar.{SplitChar, split_char}
use deprecated_yandex_contes.Tokenizer.SplitChar
use deprecated_yandex_contes.Broker.Descriptors.{setnonblock, set_flags, set_done}
use deprecated_yandex_contes.Broker.State.{Options, BrokerImpl, solution, put_solution}
use deprecated_yandex_contes.Broker.Impl.{construct, new_broker, begin, setup_from, freeze}
use deprecated_yandex_contes.Text.Streams.{IStream, OStream}
use deprecated_yandex_contes.Broker.Process as BrokerProcess
use deprecated_yandex_contes.Broker.Process.{start, io_interface, IoInterface}
use deprecated_yandex_contes.Killer.Process as KillerProcess
use deprecated_yandex_contes.Killer.Impl.{contains}
use deprecated_yandex_contes.Killer.Process.{main}
use deprecated_yandex_contes.Broker.Options.{read_options}
use deprecated_yandex_contes.Configurator.{configure, set_up, connect, connect_all, dump_options}
use deprecated_yandex_contes.Broker.Process.Exits.{partial, main-Refused}
use deprecated_yandex_contes.Broker.Interface.{Call, begin_as, send, end, abort}
use deprecated_yandex_contes.Broker.Interface.Session.{script}
use deprecated_yandex_contes.Tests.Samples.{casts}
use deprecated_yandex_contes.Configurator.Wired.{configure-Wired}
use deprecated_yandex_contes.Configurator.Spec.{Wired, WiredBy}
use deprecated_yandex_contes.Configurator.Guarded.{configure-main}
use deprecated_yandex_contes.Configurator.Started.{configure-start, configure-begin}
use deprecated_yandex_contes.Tests.Json.{
  broker_json, broker_json-IsJson, killer_json, killer_json-IsJson,
}
use deprecated_yandex_contes.Tests.Killer.{log, format, own, frame, pods}
use deprecated_yandex_contes.Tests.Broker.Solutions.{table, killer, env}
use deprecated_yandex_contes.Tests.Configurator.{
  libraries, process-IsProcess, filesystem-IsFiles, game, configured_game, configured,
  broker_config, killer_config, configs-ne,
}

-- The killer runs in a group that a solution names.
abbrev killer_world : KillerProcess.World (List Bytes)
killer_world = record {
  file = λ path. (configured_game.files path).content;
  this = own;
  groups = [];
  input = 0 ∷ b'4' ∷ 2 ∷ b'5' ∷ [];
  output = record { sent = []; good = true };
}

configure-main_example :
    contains
      (main killer_json log format pods 3 killer_world configured_game.killer.arguments).1
      own
    ≡ contains [] own
configure-main_example =
    configure-main libraries process-IsProcess filesystem-IsFiles log format (λ w. contains w own)
      own frame pods killer_json-IsJson broker_config killer_config game configured_game 3
      killer_world refl configured (λ path. refl) (inl refl)

abbrev dl : DynamicLibrary SplitChar
dl = record {
  tokenizer_new = some (SplitChar.new true);
  tokenizer_delete = some (λ _. ok tt);
  tokenizer_parse = some SplitChar.parse;
  tokenizer_what = none;
}

dl-loads : new_factory dl ≡ ok (split_char true)
unfolding new_factory
dl-loads = refl

abbrev sink : OStream
sink = record { sent = []; good = true }

abbrev calls : List Call
calls = begin_as 0 (codes ",") ∷ send 0 (codes "go") ∷ end 0 ∷ []

abbrev commands : IStream
commands = record { rest = script casts calls; broken = false }

abbrev world : BrokerProcess.World SplitChar ℕ (ℕ → ℕ)
world = record {
  file = λ path. (configured_game.files path).content;
  library = λ _. some dl;
  source = λ _. commands;
  sink = λ _. sink;
  killer = λ _. 0;
  fcntl = table;
  descriptors = λ _. 1;
  status = continue;
  ahead = env ∷ [];
}

configure-start_example :
    (options : Options ℕ) × WiredBy libraries options broker_config game configured_game
    × (start broker_json killer world configured_game.broker.arguments ≡ (
        new_broker killer options table (λ _. 1) continue 0 (env ∷ []) >>= λ b.
        ok (split_char true, b, io_interface world options.judge)))
configure-start_example =
    configure-start libraries process-IsProcess filesystem-IsFiles broker_json-IsJson killer
      broker_config killer_config game configured_game world dl (split_char true) refl configs-ne
      configured (λ path. refl) refl dl-loads

abbrev none_started : BrokerImpl ℕ SplitChar ℕ
none_started = record {
  default_limits = game.default_limits;
  default_argument = [];
  solutions = [];
  killer = 0;
  ahead = [];
  traffic = [];
}

refuses : SplitChar.new true [] ≡ err assertion
unfolding SplitChar.new
refuses = refl

unfoldable started : BrokerImpl ℕ SplitChar ℕ
unfolding start new_factory new_broker construct setup_from setnonblock set_flags set_done freeze
    solution put_solution configured_game read_options
started = elim (start broker_json killer world configured_game.broker.arguments) [
  | ok (_, b, _) ↦ b
  | err _ ↦ none_started
]

starts :
    start broker_json killer world configured_game.broker.arguments
    ≡ ok (split_char true, started, record { input = commands; output = sink })
unfolding started start new_factory new_broker construct setup_from setnonblock set_flags set_done
    freeze solution put_solution configured_game configure set_up connect connect_all dump_options
    read_options
starts = refl

configure-begin_example : begin (split_char true) 0 started ≡ err assertion
configure-begin_example =
    configure-begin libraries process-IsProcess filesystem-IsFiles broker_json-IsJson killer
      broker_config killer_config game configured_game world (split_char true) started
      (record { input = commands; output = sink }) 0 refl configs-ne configured (λ path. refl)
      starts refuses

abbrev partial_world : BrokerProcess.World SplitChar ℕ (ℕ → ℕ)
partial_world = record world { library = λ _. some (record dl { tokenizer_parse = none }) }

wired : Wired libraries broker_config game configured_game
wired =
    configure-Wired libraries process-IsProcess filesystem-IsFiles broker_json-IsJson broker_config
      killer_config game configured_game refl configs-ne configured

main-Refused_example :
    BrokerProcess.main broker_json killer casts 4 partial_world (codes "b" ∷ broker_config ∷ [])
    ≡ record { exit = abort; served = none }
main-Refused_example =
    main-Refused broker_json killer partial_world casts 4 (codes "b" ∷ broker_config ∷ []) abort (
      partial (codes "b") broker_config wired.0 (record dl { tokenizer_parse = none }) wired.1.0
        refl (inr (inr refl)))
