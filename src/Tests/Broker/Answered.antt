-- ===== src/Tests/Broker/Answered.antt =====
-- An `end` of an iteration whose solution prints the rest of a token.
use deprecated_yandex_contes.Base.{
  int64, inl, inr, ℕ, true, false, [], ◌∷◌, some, codes, ok, pos, ◌≡◌, ◌⊎◌, refl, arith,
}
use deprecated_yandex_contes.Tokenizer.{continue, accepted, tokenize, status_of}
use deprecated_yandex_contes.Tokenizer.SplitChar.{SplitChar, memchr}
use deprecated_yandex_contes.Tokenizer.SplitChar
use deprecated_yandex_contes.Tokenizer.SplitChar.Contract.{split_char-IsTokenizer}
use deprecated_yandex_contes.Tokenizer.Laws.{IsTokenizer}
use deprecated_yandex_contes.Killer
use deprecated_yandex_contes.Broker.Types.{BrokerResult, ok_status, tokenizer_error, default_limits}
use deprecated_yandex_contes.Broker.Communicate.{
  got, read_again, wrote, write_again, wait, nanoseconds, until_point, Event, Writer, on_writable,
  write_out, write_loop, written, unwatch_writer,
}
use deprecated_yandex_contes.Broker.Communicate.Events.{BringAll}
use deprecated_yandex_contes.Broker.Communicate.Answered.{Waiting}
use deprecated_yandex_contes.Broker.State.{BrokerImpl, Solution, comm_of}
use deprecated_yandex_contes.Broker.Impl.{end_in}
use deprecated_yandex_contes.Broker.Impl.Answered.{end_in-answered}
use deprecated_yandex_contes.Tests.Broker.Solutions.{
  env, lib, killer, comma, quiet, solution_with, begun,
}

abbrev taking : Event
taking = record quiet { fd = 3; epollout = true; writes = wrote 9 ∷ write_again ∷ [] }

abbrev printing : Event
printing = record quiet { fd = 4; epollin = true; reads = got (codes "b,c") ∷ read_again ∷ [] }

-- All is written, and the write end is watched no longer.
abbrev idle : Writer
idle = record { inbuf = []; watched = false; delivered = [] }

abbrev sol : Solution ℕ SplitChar
sol = solution_with 3 [] (some comma) continue (codes "a")

law : IsTokenizer lib (λ _. Unit {0})
law = split_char-IsTokenizer true

no_comma : tokenize lib comma (codes "a") ≡ ok (comma, record { status = continue; accepted = 1 })
unfolding tokenize SplitChar.parse memchr status_of
no_comma = refl

sol-Waiting : Waiting lib (λ _. Unit {0}) comma law (codes "a") (comm_of comma sol).reader
sol-Waiting = (
  refl,
  (tt, refl, refl, λ ys. law.resumes comma (codes "a") ys tt no_comma refl),
  refl,
  (comma, 1, no_comma),
)

prints :
    BringAll sol.process.ends
      (until_point (pos 0) default_limits.real_time_limit)
      (comm_of comma sol).writer
      env.environment.rounds
      (codes "b,c")
unfolding wait until_point nanoseconds int64 on_writable write_out write_loop written unwatch_writer
prints = (
  codes "b,c",
  [],
  idle,
  refl,
  (
    taking,
    printing ∷ [],
    refl,
    inl (
      idle,
      (refl, refl, refl, refl),
      inr (codes "b,c", [], refl, (refl, refl, ([], refl, refl)), (refl, refl)),
    ),
  ),
  refl,
)

finds : tokenize lib comma (codes "ab,c") ≡ ok (comma, record { status = accepted; accepted = 3 })
unfolding tokenize SplitChar.parse memchr status_of
finds = refl

end_in-answered_example :
    (result : BrokerResult) × (b : BrokerImpl ℕ SplitChar ℕ) × (end_in lib killer env 0 false begun
      ≡ ok (result, b))
    × ((result.status ≡ ok_status) ⊎ (result.status ≡ tokenizer_error))
end_in-answered_example =
    end_in-answered lib killer 0 begun sol refl Killer.ok_status Killer.ok_status 1 2 refl refl refl
      refl (λ _. Unit {0}) comma law env false comma (codes "a") (codes "b,c") comma
      (record { status = accepted; accepted = 3 }) refl
      (λ e. let low : 3 ≡ 4 = e in omega (arith, low)) refl sol-Waiting prints finds refl
