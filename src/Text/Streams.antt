-- ===== src/Text/Streams.antt =====
-- `std::istream` and `std::ostream`, as far as the program uses them: an input stream is the bytes
-- that will still arrive and what comes behind them, an output stream the bytes that it has taken.
use deprecated_yandex_contes.Base.{Bool, ◌++◌, Bytes, if◌then◌else◌}

-- `broken`: behind `rest` comes a read error (badbit), not the end of the file.
pub record IStream : Type 0 where
  pub rest : Bytes
  pub broken : Bool

-- `good`: the sink takes bytes. A stream that is not good drops them and stays so.
pub record OStream : Type 0 where
  pub sent : Bytes
  pub good : Bool

abbrev pub put : Bytes → OStream → OStream
put bs out = if out.good then record out { sent = out.sent ++ bs } else out
