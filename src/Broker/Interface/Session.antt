-- ===== src/Broker/Interface/Session.antt =====
-- The loop of src/bin/broker.cpp over a whole conversation with the judge.
use deprecated_yandex_contes.Base.{
  ℕ, zero, suc, ◌<◌, false, List, [], ◌∷◌, ◌++◌, Bytes, length, All, ok, err, end_of_file,
  Result-cases, ◌≡◌, refl, inl, inr, arith,
}
use deprecated_yandex_contes.Text.Streams.{OStream}
use deprecated_yandex_contes.Text.Archive.{recv_command, load}
use deprecated_yandex_contes.Text.Archive.Lines.{command_line}
use deprecated_yandex_contes.Text.Escape.{unescape}
use deprecated_yandex_contes.Broker.Types.{Casts, IsExact}
use deprecated_yandex_contes.Broker.Interface.{
  BrokerOps, Call, to_command, run_once, success, exit_of, Served, serve,
}
use deprecated_yandex_contes.Broker.Interface.Calls.{exec, Fits, reply, run_once-exec}

-- What the judge writes for a list of calls.
unfoldable pub script : Casts → List Call → Bytes
script c [] = []
script c (call ∷ calls) = command_line c (to_command c call) ++ script c calls

module _ {S : Type 0} (c : Casts) (b : BrokerOps S) where
  -- The calls one after the other, each with its reply, up to the first that fails.
  unfoldable pub session : List Call → S → OStream → Served S
  session [] s out = record { exit = success; state = s; output = out }
  session (call ∷ calls) s out = elim (exec b call s) [
    | ok (r, s') ↦ session calls s' (reply c r out)
    | err e ↦ record { exit = exit_of e; state = s; output = out }
  ]

pub recv_command_end :
    (c : Casts) → recv_command c (record { rest = []; broken = false }) ≡ err end_of_file
unfolding recv_command load unescape
recv_command_end c = refl

module _ {S : Type 0} (c : Casts) (exact : IsExact c) (b : BrokerOps S) where
  -- Fed the lines of a list of calls whose numbers fit, and given more fuel than calls, the loop of
  -- broker.cpp makes these calls in this order, replies to each end, exits with status 0 behind the
  -- last one, and stops at the first call that fails. The casts are exact.
  pub serve-script :
      (calls : List Call) (fuel : ℕ) (s : S) (out : OStream)
      → All Fits calls
      → length calls < fuel
      → serve c b fuel (record { rest = script c calls; broken = false }) s out
        ≡ session c b calls s out
  unfolding serve script session
  serve-script calls zero s out fits h = absurd (omega arith)
  serve-script [] (suc fuel) s out fits h =
      let stop : run_once c b (record { rest = []; broken = false }) s out ≡ err end_of_file =
        unfold run_once in rw (recv_command_end c) refl in
      rw (stop, serve)
  serve-script (call ∷ calls) (suc fuel) s out fits h =
      let round = run_once-exec c exact b call s out (script c calls) false fits.0 in
      elim (Result-cases (exec b call s)) [
        | inl (e, p) ↦ rw (round, serve, p, session)
        | inr ((r, s'), p) ↦
            rw (round, serve, p, session)
              (serve-script calls fuel s' (reply c r out) fits.1 (omega arith))
      ]
