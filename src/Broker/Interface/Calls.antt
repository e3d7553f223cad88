-- ===== src/Broker/Interface/Calls.antt =====
-- A call through the protocol does what the method of the broker does.
use deprecated_yandex_contes.Base.{
  ℕ, ◌≤◌, Bool, true, false, [], ◌++◌, Option, none, some, Bytes, Result, ok, ◌>>=◌, Result-cases,
  >>=-assoc, ◌≡◌, ◌⊎◌, inl, inr, refl, ◌∙◌, arith, append-nil,
}
use deprecated_yandex_contes.Text.Streams.{OStream, put}
use deprecated_yandex_contes.Text.Archive.Lines.{
  command_line, result_line, send_command_lem, send_result_lem,
}
use deprecated_yandex_contes.Text.Archive.RoundTrip.{recv_command_line, recv_result_line}
use deprecated_yandex_contes.Broker.Types.{Casts, IsExact, BrokerResult, FitsInt64, max_id}
use deprecated_yandex_contes.Broker.Interface.{
  BrokerOps, Call, begin_with, begin_as, begin, send, end_with, end, terminate, to_command, waits,
  receive, client_call, run, run_once,
}

-- The method of the broker that a call names, and its result, if it has one.
unfoldable pub exec : {S : Type 0} → BrokerOps S → Call → S → Result (Option BrokerResult × S)
exec b (begin_with id argument limits) s = do s' ← b.begin_with id argument limits s; ok (none, s')
exec b (begin_as id argument) s = do s' ← b.begin_as id argument s; ok (none, s')
exec b (begin id) s = do s' ← b.begin id s; ok (none, s')
exec b (send id msg) s = do s' ← b.send id msg s; ok (none, s')
exec b (end_with id discard) s = do (r, s') ← b.end id discard s; ok (some r, s')
exec b (end id) s = do (r, s') ← b.end id false s; ok (some r, s')
exec b (terminate id) s = do s' ← b.terminate id s; ok (none, s')

abbrev pub call_id : Call → ℕ
call_id (begin_with id _ _) = id
call_id (begin_as id _) = id
call_id (begin id) = id
call_id (send id _) = id
call_id (end_with id _) = id
call_id (end id) = id
call_id (terminate id) = id

abbrev pub LimitsFit : Call → Type 0
LimitsFit (begin_with _ _ limits) =
    FitsInt64 limits.user_time_limit × FitsInt64 limits.real_time_limit
LimitsFit _ = Unit

-- The numbers of the call are values of their C++ types.
abbrev pub Fits : Call → Type 0
Fits call = (call_id call ≤ max_id) × LimitsFit call

-- The stream behind the reply to a call.
abbrev pub reply : Casts → Option BrokerResult → OStream → OStream
reply c none out = out
reply c (some r) out = put (result_line c r) out

pub to_command-id : (c : Casts) (call : Call) → Fits call → (to_command c call).id ≤ max_id
unfolding to_command
to_command-id c (begin_with _ _ _) fits = fits.0
to_command-id c (begin_as _ _) fits = fits.0
to_command-id c (begin _) fits = fits.0
to_command-id c (send _ _) fits = fits.0
to_command-id c (end_with _ _) fits = fits.0
to_command-id c (end _) fits = fits.0
to_command-id c (terminate _) fits = fits.0

module _ {S : Type 0} (c : Casts) (exact : IsExact c) (b : BrokerOps S) where
  run-to_command :
      (call : Call) (s : S) (out : OStream)
      → Fits call
      → run c b (to_command c call) s out
        ≡ exec b call s >>= λ done. ok (done.1, reply c done.0 out)
  unfolding run to_command exec
  run-to_command (begin_with id argument limits) s out fits =
      rw
        (
          exact.copies argument,
          exact.millis limits.user_time_limit fits.1.0,
          exact.millis limits.real_time_limit fits.1.1,
        )
        (ground arith)
  run-to_command (begin_as id argument) s out fits = rw (exact.copies argument) (ground arith)
  run-to_command (begin id) s out fits = ground arith
  run-to_command (send id msg) s out fits = rw (exact.copies msg) (ground arith)
  run-to_command (end_with id discard) s out fits =
      rw (exact.bools discard) (simp (send_result_lem c) (ground arith))
  run-to_command (end id) s out fits = simp (send_result_lem c) (ground arith)
  run-to_command (terminate id) s out fits = ground arith

  -- The server takes the command's line, calls the method, and replies; if the method fails, so
  -- does the server's round, in the same way.
  pub run_once-exec :
      (call : Call) (s : S) (out : OStream) (rest : Bytes) (broken : Bool)
      → Fits call
      → run_once c b
          (record { rest = command_line c (to_command c call) ++ rest; broken = broken })
          s
          out
        ≡ exec b call s >>= λ done.
            ok (done.1, record { rest = rest; broken = broken }, reply c done.0 out)
  unfolding run_once
  run_once-exec call s out rest broken fits =
      rw
        (
          recv_command_line c exact rest broken (to_command c call) (to_command-id c call fits),
          run-to_command call s out fits,
        )
        (>>=-assoc (exec b call s) _ _)

-- What the reply holds, as bytes.
abbrev pub reply_line : Casts → Option BrokerResult → Bytes
reply_line c none = []
reply_line c (some r) = result_line c r

-- The calls with a reply are those that wait for one.
pub exec-waits :
    {S : Type 0} (b : BrokerOps S) (call : Call) (s : S) {r : Option BrokerResult} {s' : S}
    → exec b call s ≡ ok (r, s')
    → ((waits call ≡ false) × (r ≡ none))
      ⊎ ((a : BrokerResult) × (waits call ≡ true) × (r ≡ some a))
unfolding exec
exec-waits b (begin_with _ _ _) s e = ground arith
exec-waits b (begin_as _ _) s e = ground arith
exec-waits b (begin _) s e = ground arith
exec-waits b (send _ _) s e = ground arith
exec-waits b (end_with id discard) s e = elim (Result-cases (b.end id discard s)) [
  | inl (_, p) ↦ ground arith
  | inr ((a, _), p) ↦ inr (a, refl, ground arith)
]
exec-waits b (end id) s e = elim (Result-cases (b.end id false s)) [
  | inl (_, p) ↦ ground arith
  | inr ((a, _), p) ↦ inr (a, refl, ground arith)
]
exec-waits b (terminate _) s e = ground arith

reply-good :
    (c : Casts) (r : Option BrokerResult) (out : OStream)
    → out.good ≡ true
    → reply c r out ≡ record out { sent = out.sent ++ reply_line c r }
reply-good c none out g = rw append-nil
reply-good c (some r) out g = ground arith

module _ {S : Type 0} (c : Casts) (exact : IsExact c) (b : BrokerOps S) where
  receive-reply_line :
      (call : Call) (s : S) {r : Option BrokerResult} {s' : S} (rest : Bytes) (broken : Bool)
      → exec b call s ≡ ok (r, s')
      → receive c (waits call) (record { rest = reply_line c r ++ rest; broken = broken })
        ≡ ok (r, record { rest = rest; broken = broken })
  unfolding receive
  receive-reply_line call s rest broken e = elim (exec-waits b call s e) [
    | inl (w, n) ↦ rw (w, n)
    | inr (a, w, n) ↦ rw (w, n, recv_result_line c exact rest broken a)
  ]

  -- A call of BrokerInterface that succeeds, from both ends: the server takes exactly the line of
  -- the command, makes that call of the broker and writes the line of its result; the client, whose
  -- input begins with that line, writes exactly the line of the command, takes exactly the reply
  -- and returns the result. The casts are exact, the numbers fit their types, and the sinks take
  -- bytes.
  pub client_call-run_once :
      (call : Call) (s : S) {r : Option BrokerResult} {s' : S} (there back : OStream)
      (later rest : Bytes)
      → Fits call
      → there.good ≡ true
      → back.good ≡ true
      → exec b call s ≡ ok (r, s')
      → (run_once c b
            (record { rest = command_line c (to_command c call) ++ later; broken = false })
            s
            back
          ≡ ok (
            s',
            record { rest = later; broken = false },
            record back { sent = back.sent ++ reply_line c r },
          ))
        × (client_call c call (record { rest = reply_line c r ++ rest; broken = false }) there
            ≡ ok (
              r,
              record { rest = rest; broken = false },
              record there { sent = there.sent ++ command_line c (to_command c call) },
            ))
  unfolding client_call
  client_call-run_once call s {r} there back later rest fits g₁ g₂ e = (
    run_once-exec c exact b call s back later false fits ∙ rw (e, reply-good c r back g₂),
    rw (send_command_lem c (to_command c call) there, receive-reply_line call s rest false e, g₁),
  )
