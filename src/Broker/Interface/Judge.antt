-- ===== src/Broker/Interface/Judge.antt =====
-- A judge that plays a game through `BrokerInterface`, in one process, and the loop of broker.cpp, in
-- another one: each writes on a pipe that the other one reads, and they run at their own pace. A line
-- comes through a pipe as a whole.
pub mod Place
pub mod Steps
pub mod Direct
pub mod Progress
pub mod Server
use deprecated_yandex_contes.Base.{
  true, false, Option, none, some, Bytes, Result, ok, ◌>>=◌, [], ◌≡◌, ◌≢◌, Bool,
}
use deprecated_yandex_contes.Text.Streams.{IStream, OStream}
use deprecated_yandex_contes.Text.Archive.{send_command, recv_result}
use deprecated_yandex_contes.Broker.Types.{Casts, BrokerResult}
use deprecated_yandex_contes.Broker.Interface.{BrokerOps, Call, to_command, waits, run_once}
use deprecated_yandex_contes.Broker.Interface.Calls.{exec, Fits}

-- The program of the judge: it ends with a score, or calls a method of the broker and goes on with
-- what that returns.
pub data Judge (A : Type 0) : Type 0 where
  score : A → Judge A
  calls : Call → (Option BrokerResult → Judge A) → Judge A

-- The numbers of all its calls are values of their C++ types.
abbrev pub AllFit : {A : Type 0} → Judge A → Type 0
AllFit (score a) = Unit
AllFit (calls call next) = Fits call × ((r : Option BrokerResult) → AllFit (next r))

-- A judge that has the broker in its own process.
unfoldable pub play : {S A : Type 0} → BrokerOps S → Judge A → S → Result (A × S)
play b (score a) s = ok (a, s)
play b (calls call next) s = do (r, s') ← exec b call s; play b (next r) s'

-- Where the judge stands: before a call, or within one, as it waits for the result.
pub data Client (A : Type 0) : Type 0 where
  before : Judge A → Client A
  within : (Option BrokerResult → Judge A) → Client A

-- Both processes, and the bytes in the pipes between them.
pub record System (S A : Type 0) : Type 0 where
  pub client : Client A
  pub requests : Bytes
  pub replies : Bytes
  pub server : S

-- Behind the command of a call.
abbrev pub behind : {A : Type 0} → Bool → (Option BrokerResult → Judge A) → Client A
behind true next = within next
behind false next = before (next none)

-- A step of one of the two. A reader that finds nothing in its pipe waits.
pub data Step {S A : Type 0} (c : Casts) (b : BrokerOps S) (m m' : System S A) : Type 0 where
  sends :
      (call : Call) (next : Option BrokerResult → Judge A) (out : OStream)
      → m.client ≡ before (calls call next)
      → send_command c (to_command c call) (record { sent = m.requests; good = true }) ≡ ok out
      → m' ≡ record m { client = behind (waits call) next; requests = out.sent }
      → Step c b m m'
  serves :
      (s : S) (input : IStream) (out : OStream)
      → m.requests ≢ []
      → run_once c b
          (record { rest = m.requests; broken = false })
          m.server
          (record { sent = m.replies; good = true })
        ≡ ok (s, input, out)
      → m' ≡ record m { requests = input.rest; replies = out.sent; server = s }
      → Step c b m m'
  receives :
      (next : Option BrokerResult → Judge A) (r : BrokerResult) (input : IStream)
      → m.client ≡ within next
      → m.replies ≢ []
      → recv_result c (record { rest = m.replies; broken = false }) ≡ ok (r, input)
      → m' ≡ record m { client = before (next (some r)); replies = input.rest }
      → Step c b m m'

-- Any steps, in any order.
pub data Reach {S A : Type 0} (c : Casts) (b : BrokerOps S) (m : System S A)
    : System S A → Type 0 where
  here : Reach c b m m
  next : {m₁ m₂ : System S A} → Reach c b m m₁ → Step c b m₁ m₂ → Reach c b m m₂

-- Both at their beginning, with empty pipes.
abbrev pub begins : {S A : Type 0} → Judge A → S → System S A
begins judge s = record { client = before judge; requests = []; replies = []; server = s }
