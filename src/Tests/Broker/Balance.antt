-- ===== src/Tests/Broker/Balance.antt =====
-- A session with the judge, and the bytes of a solution behind it.
use deprecated_yandex_contes.Base.{
  int64, List, true, false, [], ◌∷◌, none, some, codes, ok, ◌≡◌, refl, arith,
}
use deprecated_yandex_contes.Tokenizer.{tokenize, instance_of, status_of, continue}
use deprecated_yandex_contes.Tokenizer.SplitChar.{memchr, SplitChar}
use deprecated_yandex_contes.Tokenizer.SplitChar
use deprecated_yandex_contes.Broker.Types.{ok_status}
use deprecated_yandex_contes.Broker.Interface.{Call, begin, send, end, serve}
use deprecated_yandex_contes.Broker.Interface.Calls.{exec}
use deprecated_yandex_contes.Broker.Interface.Session.{script}
use deprecated_yandex_contes.Broker.Interface.History.{history, replies, sent_to, paid_by, Answered}
use deprecated_yandex_contes.Broker.Communicate.{
  communicate, comm_loop, run_round, wait, react, handle, on_writable, write_out, write_loop,
  written, unwatch_writer, read_loop, read_chunk, file_answer, nanoseconds, until_point,
}
use deprecated_yandex_contes.Broker.Descriptors.{setnonblock, set_flags, set_done}
use deprecated_yandex_contes.Broker.State.{BrokerImpl, leftover, solution, put_solution, reset}
use deprecated_yandex_contes.Broker.State
use deprecated_yandex_contes.Broker.Impl.{
  construct, new_broker, setup_from, impl, freeze, unfreeze, scan_outbuf, communicate_with,
  transfer, verdict, begin_with, begin_as, talk, conclude, end_in,
}
use deprecated_yandex_contes.Broker.Impl
use deprecated_yandex_contes.Broker.Impl.Balance.{Books}
use deprecated_yandex_contes.Broker.Impl.Balance.Session.{serve-Books}
use deprecated_yandex_contes.Tests.Samples.{casts, casts-IsExact}
use deprecated_yandex_contes.Tests.Broker.Solutions.{
  table, lib, killer, env, two_processes, fresh_broker,
}

abbrev calls : List Call
calls = begin 0 ∷ send 0 (codes "go") ∷ end 0 ∷ []

abbrev past : List Answered
past =
    (begin 0, none)
    ∷ (send 0 (codes "go"), none)
    ∷ (end 0, some (record { status = ok_status; payload = codes "b," }))
    ∷ []

constructed : new_broker killer two_processes table (λ _. 1) continue 0 (env ∷ []) ≡ ok fresh_broker
unfolding new_broker construct setup_from setnonblock set_flags set_done freeze solution
    put_solution
constructed = refl

ran : (history (impl lib killer) calls fresh_broker).0 ≡ past
unfolding history exec Impl.begin begin_as begin_with instance_of SplitChar.new scan_outbuf
    State.send Impl.end end_in talk conclude unfreeze freeze transfer communicate_with communicate
    comm_loop run_round wait react handle on_writable write_out write_loop written unwatch_writer
    read_loop read_chunk tokenize SplitChar.parse memchr status_of file_answer leftover reset
    solution put_solution verdict nanoseconds until_point int64
ran = refl

serve-Books_example :
    let served =
      serve casts
        (impl lib killer)
        4
        (record { rest = script casts calls; broken = false })
        fresh_broker
        (record { sent = []; good = true }) in
    (served.output
      ≡ replies casts
          (history (impl lib killer) calls fresh_broker).0
          (record { sent = []; good = true }))
    × Books 0
        (sent_to 0 (history (impl lib killer) calls fresh_broker).0)
        (paid_by 0 (history (impl lib killer) calls fresh_broker).0)
        served.state
serve-Books_example =
    serve-Books lib killer casts casts-IsExact two_processes table (λ _. 1) continue 0 (env ∷ []) 0
      calls 4 (record { sent = []; good = true }) fresh_broker constructed (omega arith)
      (omega arith) (omega arith) (rw ran (λ _. tt, (λ _. tt, (λ _. refl, tt))))
