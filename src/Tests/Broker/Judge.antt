-- ===== src/Tests/Broker/Judge.antt =====
-- A judge in one process and a broker in another one that counts its calls: the judge has written two
-- commands before the broker reads the first.
use deprecated_yandex_contes.Base.{
  ℕ, true, false, [], ◌++◌, Option, none, some, Bytes, codes, ok, ◌≡◌, ◌⊎◌, refl, subst, ◌∙◌, arith,
  append-nil,
}
use deprecated_yandex_contes.Text.Archive.{recv_result}
use deprecated_yandex_contes.Text.Archive.Lines.{command_line, result_line, send_command_lem}
use deprecated_yandex_contes.Text.Archive.RoundTrip.{recv_result_line}
use deprecated_yandex_contes.Broker.Types.{BrokerResult}
use deprecated_yandex_contes.Broker.Interface.{begin, end, to_command, run_once}
use deprecated_yandex_contes.Broker.Interface.Calls.{exec, run_once-exec}
use deprecated_yandex_contes.Broker.Interface.Judge.{
  Judge, score, calls, AllFit, play, before, within, System, Step, sends, serves, receives, Reach,
  here, next, begins,
}
use deprecated_yandex_contes.Broker.Interface.Judge.Direct.{command_line-ne, Reach-play}
use deprecated_yandex_contes.Broker.Interface.Judge.Progress.{
  Ended, GoesOn, Fails, result_line-ne, Reach-GoesOn,
}
use deprecated_yandex_contes.Tests.Samples.{casts, casts-IsExact}
use deprecated_yandex_contes.Tests.Broker.Interface.{counter, echoed}

-- Its score is the first token.
abbrev payload_or : Option BrokerResult → Bytes
payload_or none = []
payload_or (some r) = r.payload

abbrev judge : Judge Bytes
judge = calls (begin 1) (λ _. calls (end 1) (λ r. score (payload_or r)))

abbrev begin_line : Bytes
begin_line = command_line casts (to_command casts (begin 1))

abbrev end_line : Bytes
end_line = command_line casts (to_command casts (end 1))

abbrev both_sent : System ℕ Bytes
both_sent = record {
  client = within (λ r. score (payload_or r));
  requests = begin_line ++ end_line;
  replies = [];
  server = 0;
}

abbrev begun : System ℕ Bytes
begun = record both_sent { requests = end_line; server = 1 }

abbrev answered : System ℕ Bytes
answered = record begun { requests = []; replies = result_line casts echoed; server = 2 }

abbrev finished : System ℕ Bytes
finished = record answered { client = before (score (codes "a b")); replies = [] }

two_sent : Reach casts counter (begins judge 0) both_sent
two_sent =
    next
      (next here (
        sends (begin 1) (λ _. calls (end 1) (λ r. score (payload_or r))) _ refl
          (send_command_lem casts (to_command casts (begin 1)) (record { sent = []; good = true }))
          refl))
      (sends (end 1) (λ r. score (payload_or r)) _ refl
        (send_command_lem casts (to_command casts (end 1))
          (record { sent = begin_line; good = true }))
        refl)

begins_first : Step casts counter both_sent begun
unfolding exec
begins_first =
    serves 1 _ _ (command_line-ne casts casts-IsExact (begin 1) (omega arith, tt) end_line)
      (run_once-exec casts casts-IsExact counter (begin 1) 0 (record { sent = []; good = true })
        end_line false (omega arith, tt))
      refl

ends_second : Step casts counter begun answered
unfolding exec
ends_second =
    serves 2 (record { rest = []; broken = false }) _
      (λ empty.
        command_line-ne casts casts-IsExact (end 1) (omega arith, tt) []
          (append-nil end_line ∙ empty))
      (subst
        (λ x.
          run_once casts counter (record { rest = x; broken = false }) 1
            (record { sent = []; good = true })
          ≡ ok (
            2,
            record { rest = []; broken = false },
            record { sent = result_line casts echoed; good = true },
          ))
        (append-nil end_line)
        (run_once-exec casts casts-IsExact counter (end 1) 1 (record { sent = []; good = true }) []
          false (omega arith, tt)))
      refl

reads_last : Step casts counter answered finished
reads_last =
    receives (λ r. score (payload_or r)) echoed (record { rest = []; broken = false }) refl
      (result_line-ne casts casts-IsExact echoed)
      (subst
        (λ x.
          recv_result casts (record { rest = x; broken = false })
          ≡ ok (echoed, record { rest = []; broken = false }))
        (append-nil (result_line casts echoed))
        (recv_result_line casts casts-IsExact [] false echoed))
      refl

judge-AllFit : AllFit judge
judge-AllFit = ((omega arith, tt), λ _. ((omega arith, tt), λ _. tt))

Reach-play_example : play counter judge 0 ≡ ok (codes "a b", 2)
Reach-play_example =
    Reach-play casts casts-IsExact counter judge 0 (codes "a b") finished judge-AllFit
      (next (next (next two_sent begins_first) ends_second) reads_last) refl refl

Reach-GoesOn_example :
    Ended casts casts-IsExact counter both_sent
    ⊎ (GoesOn casts casts-IsExact counter both_sent ⊎ Fails casts casts-IsExact counter judge 0)
Reach-GoesOn_example =
    Reach-GoesOn casts casts-IsExact counter judge 0 both_sent judge-AllFit two_sent
