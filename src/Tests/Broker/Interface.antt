-- ===== src/Tests/Broker/Interface.antt =====
-- The protocol of src/lib/BrokerInterface.cpp and the loop of src/bin/broker.cpp at concrete inputs,
-- with a broker that logs its calls.
use deprecated_yandex_contes.Base.{
  ℕ, suc, true, false, List, [], ◌∷◌, ◌++◌, some, codes, length, ok, err, assertion, ◌==◌,
  if◌then◌else◌, pos, ◌≡◌, ◌<◌, ap, refl, arith,
}
use deprecated_yandex_contes.Text.Streams.{OStream}
use deprecated_yandex_contes.Text.Archive.Lines.{command_line, result_line}
use deprecated_yandex_contes.Broker.Types.{BrokerResult, ok_status, ResourceLimits}
use deprecated_yandex_contes.Broker.Interface.{
  BrokerOps, Call, begin_with, send, end, terminate, to_command, run_once, client_call, Served,
  serve, waiting,
}
use deprecated_yandex_contes.Broker.Interface.Calls.{exec, client_call-run_once}
use deprecated_yandex_contes.Broker.Interface.Session.{script, session, serve-script}
use deprecated_yandex_contes.Broker.Interface.Termination.{Stuck, serve-Stuck}
use deprecated_yandex_contes.Tokenizer.SplitChar.{SplitChar}
use deprecated_yandex_contes.Broker.State.{BrokerImpl}
use deprecated_yandex_contes.Broker.Impl.{impl}
use deprecated_yandex_contes.Broker.Impl
use deprecated_yandex_contes.Tests.Broker.Solutions.{lib, killer, begun}
use deprecated_yandex_contes.Tests.Samples.{casts, casts-IsExact}

abbrev pub echoed : BrokerResult
echoed = record { status = ok_status; payload = codes "a b" }

-- The state counts the calls; a message of one byte is refused.
abbrev pub counter : BrokerOps ℕ
counter = record {
  begin_with = λ _ _ _ n. ok (suc n);
  begin_as = λ _ _ n. ok (suc n);
  begin = λ _ n. ok (suc n);
  send = λ _ msg n. if length msg == 1 then err assertion else ok (suc n);
  end = λ _ _ n. ok (echoed, suc n);
  terminate = λ _ n. ok (suc n);
}

abbrev output : OStream
output = record { sent = []; good = true }

abbrev limits : ResourceLimits
limits = record { user_time_limit = pos 5; real_time_limit = pos 7 }

abbrev calls : List Call
calls = begin_with 1 (codes ",") limits ∷ send 1 (codes "go on") ∷ end 1 ∷ terminate 1 ∷ []

end_counter : exec counter (end 1) 3 ≡ ok (some echoed, 4)
unfolding exec
end_counter = refl

client_call-run_once_example :
    (run_once casts counter
        (record {
          rest = command_line casts (to_command casts (end 1)) ++ codes "t";
          broken = false;
        })
        3
        output
      ≡ ok (
        4,
        record { rest = codes "t"; broken = false },
        record { sent = result_line casts echoed; good = true },
      ))
    × (client_call casts
          (end 1)
          (record { rest = result_line casts echoed ++ codes "o"; broken = false })
          output
        ≡ ok (
          some echoed,
          record { rest = codes "o"; broken = false },
          record { sent = command_line casts (to_command casts (end 1)); good = true },
        ))
client_call-run_once_example =
    client_call-run_once casts casts-IsExact counter (end 1) 3 output output (codes "t") (codes "o")
      (omega arith, tt) refl refl end_counter

serve-script_example :
    serve casts counter 9 (record { rest = script casts calls; broken = false }) 0 output
    ≡ session casts counter calls 0 output
serve-script_example =
    serve-script casts casts-IsExact counter calls 9 0 output
      (
        (omega arith, ((omega arith, omega arith), (omega arith, omega arith))),
        ((omega arith, tt), ((omega arith, tt), ((omega arith, tt), tt))),
      )
      (omega arith)

-- The broker that waits for the solution for ever.
abbrev sleeping : BrokerImpl ℕ SplitChar ℕ
sleeping = record begun { ahead = [] }

few : length (script casts (end 0 ∷ [])) < 9
unfolding script command_line deprecated_yandex_contes.Text.Archive.Lines.line_of
    deprecated_yandex_contes.Text.Escape.escape to_command
few = omega arith

sleeps :
    (serve casts
      (impl lib killer)
      9
      (record { rest = script casts (end 0 ∷ []); broken = false })
      sleeping
      output).exit
    ≡ waiting
unfolding session exec Impl.end
sleeps =
    ap (λ (x : Served (BrokerImpl ℕ SplitChar ℕ)). x.exit)
      (serve-script casts casts-IsExact (impl lib killer) (end 0 ∷ []) 9 sleeping output
        ((omega arith, tt), tt) (omega arith))

serve-Stuck_example :
    Stuck casts
      (impl lib killer)
      (serve casts
        (impl lib killer)
        9
        (record { rest = script casts (end 0 ∷ []); broken = false })
        sleeping
        output).state
serve-Stuck_example =
    serve-Stuck casts (impl lib killer) 9
      (record { rest = script casts (end 0 ∷ []); broken = false }) sleeping output few sleeps
