-- ===== src/Tests/Broker/Verdict.antt =====
-- An iteration whose output ends before the token does.
use deprecated_yandex_contes.Base.{
  int64, ℕ, Bytes, true, false, [], ◌∷◌, ◌++◌, none, codes, ok, pos, ◌≡◌, refl,
}
use deprecated_yandex_contes.Tokenizer.{continue, tokenize, instance_of, status_of}
use deprecated_yandex_contes.Tokenizer.SplitChar.{SplitChar, memchr}
use deprecated_yandex_contes.Tokenizer.SplitChar
use deprecated_yandex_contes.Tokenizer.SplitChar.Contract.{split_char-IsTokenizer}
use deprecated_yandex_contes.Broker.Types.{BrokerResult, ok_status, eof_error, default_limits}
use deprecated_yandex_contes.Broker.Communicate.{
  polled, got, read_again, communicate, comm_loop, run_round, wait, react, handle, read_loop,
  read_chunk, file_answer, nanoseconds, until_point,
}
use deprecated_yandex_contes.Broker.State.{
  Process, EndEnv, BrokerImpl, leftover, solution, put_solution, reset,
}
use deprecated_yandex_contes.Broker.Impl.{
  freeze, unfreeze, scan_outbuf, communicate_with, transfer, verdict, begin_with, talk, conclude,
  end_in,
}
use deprecated_yandex_contes.Broker.Impl.Flow.{taken_of}
use deprecated_yandex_contes.Broker.Impl.Turn.{iteration, send_all}
use deprecated_yandex_contes.Broker.Impl.Reason.{setting_of}
use deprecated_yandex_contes.Broker.Impl.Verdict.{Explained, iteration-Explained}
use deprecated_yandex_contes.Tests.Broker.Solutions.{
  lib, killer, comma, solution_with, quiet, broker_with, here, made,
}

-- The solution writes a byte, and then closes its output.
abbrev env : EndEnv
env = record {
  environment = record {
    start = pos 0;
    epoll_ready = true;
    rounds =
        (record {
          now = pos 1;
          polls =
              polled
                ((record quiet {
                  fd = 4;
                  epollin = true;
                  reads = got (codes "b") ∷ read_again ∷ [];
                })
                  ∷ [])
                (pos 2)
              ∷ [];
        })
        ∷ (record {
          now = pos 2;
          polls = polled ((record quiet { fd = 4; epollhup = true }) ∷ []) (pos 3) ∷ [];
        })
        ∷ [];
  };
  uninitialised = ok_status;
}

abbrev nothing : BrokerResult
nothing = record { status = eof_error; payload = [] }

abbrev behind : BrokerImpl ℕ SplitChar ℕ
behind = record (broker_with (solution_with 3 [] none continue (codes "ab"))) {
  killer = 2;
  traffic = (record { id = 0; delivered = []; taken = codes "b" }) ∷ [];
}

-- The process of the solution.
abbrev process : Process ℕ
process = record { ends = record { in_fd = 3; out_fd = 4 }; id = 3 }

turn : iteration lib killer 0 (codes ",") default_limits [] env false here ≡ ok (nothing, behind)
unfolding iteration begin_with instance_of SplitChar.new scan_outbuf send_all end_in talk conclude
    unfreeze freeze transfer communicate_with communicate comm_loop run_round wait react handle
    read_loop read_chunk tokenize SplitChar.parse memchr status_of file_answer leftover reset
    solution put_solution verdict nanoseconds until_point int64
turn = refl

iteration-Explained_example :
    (bytes : Bytes) × Explained lib
      (λ _. Unit {0})
      comma
      (setting_of env.environment process default_limits)
      0
      (codes "a" ++ bytes)
      nothing
      behind
    × (taken_of 0 behind.traffic ≡ [] ++ bytes)
iteration-Explained_example =
    iteration-Explained lib (λ _. Unit {0}) comma killer (split_char-IsTokenizer true) 0 (codes ",")
      default_limits [] env false here refl made tt refl turn
