-- ===== src/Tests/Broker/Lines.antt =====
-- Three iterations of two solutions.
use deprecated_yandex_contes.Base.{
  int64, ℕ, Bytes, true, false, List, [], ◌∷◌, none, codes, ok, pos, ◌≡◌, refl,
}
use deprecated_yandex_contes.Tokenizer.{accepted, tokenize, instance_of, status_of}
use deprecated_yandex_contes.Tokenizer.SplitChar.{SplitChar, memchr}
use deprecated_yandex_contes.Tokenizer.SplitChar
use deprecated_yandex_contes.Broker.Types.{BrokerResult, ok_status, default_limits}
use deprecated_yandex_contes.Broker.Communicate.{
  polled, got, read_again, communicate, comm_loop, run_round, wait, react, handle, read_loop,
  read_chunk, file_answer, nanoseconds, until_point,
}
use deprecated_yandex_contes.Broker.State.{
  EndEnv, BrokerImpl, leftover, solution, put_solution, reset,
}
use deprecated_yandex_contes.Broker.Impl.{
  freeze, unfreeze, scan_outbuf, communicate_with, transfer, verdict, begin_with, talk, conclude,
  end_in,
}
use deprecated_yandex_contes.Broker.Impl.Turn.{iteration, send_all}
use deprecated_yandex_contes.Broker.Impl.Turns.{Turn, turns}
use deprecated_yandex_contes.Broker.Impl.Turns.Lines.{Reads, turns-lines}
use deprecated_yandex_contes.Tests.Broker.Solutions.{here, killer, solution_with, quiet}

-- A solution writes the bytes at once.
abbrev brings : ℕ → Bytes → EndEnv
brings fd bytes = record {
  environment = record {
    start = pos 0;
    epoll_ready = true;
    rounds =
        (record {
          now = pos 1;
          polls =
              polled
                ((record quiet { fd = fd; epollin = true; reads = got bytes ∷ read_again ∷ [] })
                  ∷ [])
                (pos 2)
              ∷ [];
        })
        ∷ [];
  };
  uninitialised = ok_status;
}

abbrev turn_of : ℕ → ℕ → EndEnv → Turn
turn_of id sep env = record {
  id = id;
  sep = sep;
  limits = default_limits;
  msgs = [];
  env = env;
  discard = false;
}

abbrev played : List Turn
played =
    turn_of 0 b',' (brings 4 (codes "b,c"))
    ∷ turn_of 1 b';' (brings 7 (codes "x;"))
    ∷ turn_of 0 b';' (brings 4 (codes "d;e"))
    ∷ []

abbrev result_of : Bytes → BrokerResult
result_of payload = record { status = ok_status; payload = payload }

abbrev results : List (Turn × BrokerResult)
results =
    (turn_of 0 b',' (brings 4 (codes "b,c")), result_of (codes "ab,"))
    ∷ (turn_of 1 b';' (brings 7 (codes "x;")), result_of (codes "x;"))
    ∷ (turn_of 0 b';' (brings 4 (codes "d;e")), result_of (codes "cd;"))
    ∷ []

abbrev behind : BrokerImpl ℕ SplitChar ℕ
behind = record here {
  solutions =
      solution_with 3 (codes "e") none accepted (codes "cd;")
      ∷ solution_with 6 [] none accepted (codes "x;")
      ∷ [];
  killer = 6;
  traffic =
      (record { id = 0; delivered = []; taken = codes "b,c" })
      ∷ (record { id = 1; delivered = []; taken = codes "x;" })
      ∷ (record { id = 0; delivered = []; taken = codes "d;e" })
      ∷ [];
}

ran : turns (SplitChar.split_char true) killer played here ≡ ok (results, behind)
unfolding turns iteration begin_with instance_of SplitChar.new scan_outbuf send_all end_in talk
    conclude unfreeze freeze transfer communicate_with communicate comm_loop run_round wait react
    handle read_loop read_chunk tokenize SplitChar.parse memchr status_of file_answer leftover reset
    solution put_solution verdict nanoseconds until_point int64
ran = refl

turns-lines_example : Reads killer 0 here results behind
turns-lines_example =
    turns-lines killer 0 played here behind results refl ran
      (λ _. refl, (λ _. refl, (λ _. refl, tt)))
