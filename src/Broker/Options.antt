-- ===== src/Broker/Options.antt =====
-- The options in a file: `BrokerImpl::Options::serialize`, and `readOptions` of src/bin/broker.cpp.
use deprecated_yandex_contes.Base.{List, [], Option, Bytes, Result, ok, or_throw, json_error, ◌>>=◌}
use deprecated_yandex_contes.Text.Json.{Json}
use deprecated_yandex_contes.Broker.Types.{ResourceLimits}
use deprecated_yandex_contes.Broker.State.{Process, Protocol, Options}

-- The fields that `serialize` shows to an archive.
pub record SavedOptions (I : Type 0) : Type 0 where
  pub protocol : Protocol
  pub tokenizer : Bytes
  pub solutions : List (Process I)
  pub killer : Process I
  pub judge : Process I
  pub default_limits : ResourceLimits

module _ {I : Type 0} where
  -- What an output archive takes from the options, and what an input archive puts into
  -- default-constructed ones.
  abbrev pub serialize : Options I → SavedOptions I
  serialize options = record {
    protocol = options.protocol;
    tokenizer = options.tokenizer;
    solutions = options.solutions;
    killer = options.killer;
    judge = options.judge;
    default_limits = options.default_limits;
  }

  abbrev pub load_options : SavedOptions I → Options I
  load_options saved = record {
    protocol = saved.protocol;
    tokenizer = saved.tokenizer;
    solutions = saved.solutions;
    killer = saved.killer;
    judge = saved.judge;
    default_limits = saved.default_limits;
    default_argument = [];
  }

  -- `readOptions`, of a file with this content, if there is one.
  unfoldable pub read_options : Json (SavedOptions I) → Option Bytes → Result (Options I)
  read_options json content = do
    text ← or_throw content json_error
    saved ← or_throw (json.read text) json_error
    ok (load_options saved)
