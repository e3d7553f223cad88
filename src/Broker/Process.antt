-- ===== src/Broker/Process.antt =====
-- src/bin/broker.cpp: the process of the broker, and the members of `BrokerImpl` that only set it
-- up, `IOInterface` and the tokenizer's library.
pub mod Exits
use deprecated_yandex_contes.Base.{
  ℕ, List, [], ◌∷◌, Option, none, some, Bytes, Result, ok, err, or_throw, assertion, system_error,
  ◌>>=◌,
}
use deprecated_yandex_contes.Text.Streams.{IStream, OStream}
use deprecated_yandex_contes.Text.Json.{Json}
use deprecated_yandex_contes.Tokenizer.{Status, TokenizerLibrary, DynamicLibrary, new_factory}
use deprecated_yandex_contes.Killer.{KillerOps}
use deprecated_yandex_contes.Broker.Types.{Casts}
use deprecated_yandex_contes.Broker.Interface.{Exit, exit_of, Served, serve}
use deprecated_yandex_contes.Broker.State.{Process, text_protocol, EndEnv, BrokerImpl}
use deprecated_yandex_contes.Broker.Options.{SavedOptions, read_options}
use deprecated_yandex_contes.Broker.Descriptors.{Fcntl}
use deprecated_yandex_contes.Broker.Impl.{new_broker, impl}

-- `BrokerImpl::IOInterface`.
pub record IoInterface : Type 0 where
  pub input : IStream
  pub output : OStream

-- What the process finds: the files, the libraries that can be loaded, what stands behind its
-- descriptors and behind the streams to the killer, its descriptors for `fcntl`, what its memory holds
-- in a new `tokenizerStatus`, and what the calls of `end` will meet.
pub record World (T K D : Type 0) : Type 0 where
  pub file : Bytes → Option Bytes
  pub library : Bytes → Option (DynamicLibrary T)
  pub source : ℕ → IStream
  pub sink : ℕ → OStream
  pub killer : IoInterface → K
  pub fcntl : Fcntl D
  pub descriptors : D
  pub status : Status
  pub ahead : List EndEnv

module _ {I T K D : Type 0} (world : World T K D) where
  -- The constructor of `IOInterface`: what the process writes is its input here.
  abbrev pub io_interface : Process I → IoInterface
  io_interface process = record {
    input = world.source process.ends.out_fd;
    output = world.sink process.ends.in_fd;
  }

-- How the process ends, and what its loop had done if it came to it.
pub record Ended (S : Type 0) : Type 0 where
  pub exit : Exit
  pub served : Option (Served S)

module _ {I T K D : Type 0} (json : Json (SavedOptions I)) (killer : KillerOps I K) where
  -- `main` up to its loop, with the initialisers of `BrokerImpl` in their order. There is one
  -- protocol only.
  unfoldable pub start :
      World T K D → List Bytes → Result (TokenizerLibrary T × BrokerImpl I T K × IoInterface)
  start world (_ ∷ path ∷ []) = do
    options ← read_options json (world.file path)
    dl ← or_throw (world.library options.tokenizer) system_error
    lib ← new_factory dl
    let k = world.killer (io_interface world options.killer)
    b ← new_broker killer options world.fcntl world.descriptors world.status k world.ahead
    let judge = io_interface world options.judge
    elim options.protocol [ text_protocol ↦ ok (lib, b, judge) ]
  start world _ = err assertion

  -- `main`, on fuel.
  unfoldable pub main : Casts → ℕ → World T K D → List Bytes → Ended (BrokerImpl I T K)
  main c fuel world argv = elim (start world argv) [
    | err e ↦ record { exit = exit_of e; served = none }
    | ok (lib, b, judge) ↦
        let served = serve c (impl lib killer) fuel judge.input b judge.output in
        record { exit = served.exit; served = some served }
  ]
