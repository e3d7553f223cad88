-- ===== src/Broker/Interface/History.antt =====
-- The calls of a session that return, with their results.
use deprecated_yandex_contes.Base.{
  ℕ, false, List, [], ◌∷◌, ◌++◌, Option, none, some, Bytes, if◌then◌else◌, ◌==◌, Result-cases, ok,
  err, ◌≡◌, refl, inl, inr,
}
use deprecated_yandex_contes.Text.Streams.{OStream}
use deprecated_yandex_contes.Broker.Types.{Casts, BrokerResult, ok_status}
use deprecated_yandex_contes.Broker.Interface.{BrokerOps, Call, send, end_with, end, terminate}
use deprecated_yandex_contes.Broker.Interface.Calls.{exec, call_id, reply}
use deprecated_yandex_contes.Broker.Interface.Session.{session}

abbrev pub Answered : Type 0
Answered = Call × Option BrokerResult

-- The calls up to the first that fails, and the state behind them.
unfoldable pub history : {S : Type 0} → BrokerOps S → List Call → S → List Answered × S
history b [] s = ([], s)
history b (call ∷ calls) s = elim (exec b call s) [
  | ok (r, s') ↦ let (past, last) = history b calls s' in ((call, r) ∷ past, last)
  | err e ↦ ([], s)
]

abbrev pub replies : Casts → List Answered → OStream → OStream
replies c [] out = out
replies c ((call, r) ∷ past) out = replies c past (reply c r out)

-- A session leaves the state behind the calls that return, and the replies to them.
pub session-history :
    {S : Type 0} (c : Casts) (b : BrokerOps S) (calls : List Call) (s : S) (out : OStream)
    → ((session c b calls s out).state ≡ (history b calls s).1)
      × ((session c b calls s out).output ≡ replies c (history b calls s).0 out)
unfolding session history
session-history c b [] s out = (refl, refl)
session-history c b (call ∷ calls) s out = elim (Result-cases (exec b call s)) [
  | inl (e, p) ↦ rw (p, session, history) (refl, refl)
  | inr ((r, s'), p) ↦ rw (p, session, history) (session-history c b calls s' (reply c r out))
]

-- The message that a call sends, and the payload that it returns.
abbrev pub message_of : Call → Bytes
message_of (send _ msg) = msg
message_of _ = []

abbrev pub payload_of : Option BrokerResult → Bytes
payload_of none = []
payload_of (some r) = r.payload

-- All messages to the solution `id`, and all payloads that the calls of its `end` return.
abbrev pub sent_to : ℕ → List Answered → Bytes
sent_to id [] = []
sent_to id ((call, _) ∷ past) =
    (if call_id call == id then message_of call else []) ++ sent_to id past

abbrev pub paid_by : ℕ → List Answered → Bytes
paid_by id [] = []
paid_by id ((call, r) ∷ past) = (if call_id call == id then payload_of r else []) ++ paid_by id past

abbrev pub IsToken : Option BrokerResult → Type 0
IsToken none = Unit
IsToken (some r) = r.status ≡ ok_status

-- A call that drops no byte of its solution: no `terminate`, no `end` that discards what is sent, and
-- each `end` returns a token.
abbrev pub DropsNone : Call → Option BrokerResult → Type 0
DropsNone (terminate _) r = ⊥
DropsNone (end_with _ discard) r = (discard ≡ false) × IsToken r
DropsNone (end _) r = IsToken r
DropsNone _ r = Unit

abbrev pub Spares : ℕ → Answered → Type 0
Spares id (call, r) = call_id call ≡ id → DropsNone call r
