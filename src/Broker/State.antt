-- ===== src/Broker/State.antt =====
-- The state of src/lib/BrokerImpl.cpp and the operations on it that call neither the tokenizer nor
-- the killer.
use deprecated_yandex_contes.Base.{
  ℕ, Bool, true, false, not, List, [], ◌++◌, Option, none, some, Bytes, take, drop, get_elem?, set,
  Result, ok, ◌>>=◌, ◌>>◌, assert, or_throw, assertion,
}
use deprecated_yandex_contes.Tokenizer.{Status, fail, continue, accepted, TokenizerResult}
use deprecated_yandex_contes.Broker.Types.{default_limits, ResourceLimits, ResultStatus}
use deprecated_yandex_contes.Broker.Communicate.{Environment, Comm, Ends}

-- `BrokerImpl::Process`: the descriptors of the pipes and the identifier.
pub record Process (I : Type 0) : Type 0 where
  pub ends : Ends
  pub id : I

-- `BrokerImpl::Solution`.
pub record Solution (I T : Type 0) : Type 0 where
  pub process : Process I
  pub tokenizer : Option T
  pub tokenizer_status : Status
  pub result : Bytes
  pub inbuf : Bytes
  pub outbuf : Bytes
  pub resource_limits : ResourceLimits

-- `BrokerImpl::Options` and its `Protocol`.
pub data Protocol : Type 0 where
  text_protocol : Protocol

pub record Options (I : Type 0) : Type 0 where
  pub protocol : Protocol
  pub tokenizer : Bytes
  pub solutions : List (Process I)
  pub killer : Process I
  pub judge : Process I
  pub default_limits : ResourceLimits
  pub default_argument : Bytes

-- What an `end` meets: the pipes and the clock, and the value of the local `result.status` before
-- it is assigned, since nothing initialises it.
pub record EndEnv : Type 0 where
  pub environment : Environment
  pub uninitialised : ResultStatus

-- The bytes that an `end` has moved to and from a solution.
pub record Traffic : Type 0 where
  pub id : ℕ
  pub delivered : Bytes
  pub taken : Bytes

-- `BrokerImpl`, with the state of the killer, and what the calls of `end` to come will meet and
-- what the ones before have moved.
pub record BrokerImpl (I T K : Type 0) : Type 0 where
  pub default_limits : ResourceLimits
  pub default_argument : Bytes
  pub solutions : List (Solution I T)
  pub killer : K
  pub ahead : List EndEnv
  pub traffic : List Traffic

-- The part of a solution that `communicate` works on, and the solution with that part put back.
abbrev pub comm_of : {I T : Type 0} → T → Solution I T → Comm T
comm_of t sol = record {
  reader = record {
    tokenizer = t;
    status = sol.tokenizer_status;
    result = sol.result;
    outbuf = sol.outbuf;
    watched = true;
    taken = [];
  };
  writer = record { inbuf = sol.inbuf; watched = true; delivered = [] };
}

abbrev pub solution_of : {I T : Type 0} → Solution I T → Comm T → Solution I T
solution_of sol c = record sol {
  tokenizer = some c.reader.tokenizer;
  tokenizer_status = c.reader.status;
  result = c.reader.result;
  inbuf = c.writer.inbuf;
  outbuf = c.reader.outbuf;
}

-- `Solution(process)`: the buffers are empty and there is no tokenizer; the limits are the default
-- ones of their type.
abbrev pub new_solution : {I T : Type 0} → Status → Process I → Solution I T
new_solution status process = record {
  process = process;
  tokenizer = none;
  tokenizer_status = status;
  result = [];
  inbuf = [];
  outbuf = [];
  resource_limits = default_limits;
}

abbrev pub is_null : {T : Type 0} → Option T → Bool
is_null none = true
is_null (some _) = false

module _ {I T : Type 0} where
  -- The switch in `begin`, on the tokenizer's answer to the output left from before.
  unfoldable pub leftover : Solution I T → TokenizerResult → Status → Solution I T
  leftover sol r fail = sol
  leftover sol r accepted = record sol {
    result = sol.result ++ take r.accepted sol.outbuf;
    outbuf = drop r.accepted sol.outbuf;
  }
  leftover sol r continue = record sol { result = sol.result ++ sol.outbuf; outbuf = [] }

module _ {I T K : Type 0} where
  -- `BOOST_ASSERT(id < solutions_.size())`.
  unfoldable pub solution : ℕ → BrokerImpl I T K → Result (Solution I T)
  solution id b = or_throw (get_elem? b.solutions id) assertion

  unfoldable pub put_solution : ℕ → Solution I T → BrokerImpl I T K → BrokerImpl I T K
  put_solution id sol b = record b { solutions = set b.solutions id sol }

  unfoldable pub send : ℕ → Bytes → BrokerImpl I T K → Result (BrokerImpl I T K)
  unfolding solution put_solution
  send id msg b = do
    sol ← solution id b
    assert (not (is_null sol.tokenizer))
    ok (put_solution id (record sol { inbuf = sol.inbuf ++ msg }) b)

  -- `solution(id).tokenizer.reset()`, which runs when `end` is left.
  unfoldable pub reset : ℕ → BrokerImpl I T K → Result (BrokerImpl I T K)
  unfolding solution put_solution
  reset id b = do sol ← solution id b; ok (put_solution id (record sol { tokenizer = none }) b)
