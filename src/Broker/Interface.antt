-- ===== src/Broker/Interface.antt =====
-- src/lib/BrokerInterface.cpp: the client half of `BrokerInterface`, which sends a command for each
-- method of `Broker`, and the server half, `runOnce` and `run`; and the loop of src/bin/broker.cpp.
pub mod Calls
pub mod History
pub mod Judge
pub mod Keeps
pub mod Session
pub mod Simulation
pub mod Termination
use deprecated_yandex_contes.Base.{
  ℕ, zero, suc, Bool, true, false, List, [], ◌∷◌, Option, none, some, Bytes, Result, ok, err, ◌>>=◌,
  ◌>>◌, or_throw, Error, assertion, end_of_file, pending, bad_lexical_cast,
}
use deprecated_yandex_contes.Text.Streams.{IStream, OStream}
use deprecated_yandex_contes.Text.Archive.{send_command, send_result, recv_command, recv_result}
use deprecated_yandex_contes.Broker.Types.{
  Casts, Command, begin_type, send_type, end_type, terminate_type, CommandType, BrokerResult,
  ResourceLimits,
}

-- The virtual methods of `Broker`, on the states `S` of an implementation. The three `begin`s are
-- overloads in the source.
pub record BrokerOps (S : Type 0) : Type 0 where
  pub begin_with : ℕ → Bytes → ResourceLimits → S → Result S
  pub begin_as : ℕ → Bytes → S → Result S
  pub begin : ℕ → S → Result S
  pub send : ℕ → Bytes → S → Result S
  pub end : ℕ → Bool → S → Result (BrokerResult × S)
  pub terminate : ℕ → S → Result S

-- A call of a method of `BrokerInterface`.
pub data Call : Type 0 where
  begin_with : ℕ → Bytes → ResourceLimits → Call
  begin_as : ℕ → Bytes → Call
  begin : ℕ → Call
  send : ℕ → Bytes → Call
  end_with : ℕ → Bool → Call
  end : ℕ → Call
  terminate : ℕ → Call

-- The command that each method builds, its arguments cast to strings.
unfoldable pub to_command : Casts → Call → Command
to_command c (begin_with id argument limits) = record {
  type = begin_type;
  id = id;
  args =
      c.text_cast.to_string argument
      ∷ c.millis_cast.to_string limits.user_time_limit
      ∷ c.millis_cast.to_string limits.real_time_limit
      ∷ [];
}
to_command c (begin_as id argument) = record {
  type = begin_type;
  id = id;
  args = c.text_cast.to_string argument ∷ [];
}
to_command c (begin id) = record { type = begin_type; id = id; args = [] }
to_command c (send id msg) = record {
  type = send_type;
  id = id;
  args = c.text_cast.to_string msg ∷ [];
}
to_command c (end_with id discard) = record {
  type = end_type;
  id = id;
  args = c.bool_cast.to_string discard ∷ [];
}
to_command c (end id) = record { type = end_type; id = id; args = [] }
to_command c (terminate id) = record { type = terminate_type; id = id; args = [] }

-- `end` waits for the result; the other methods return at once.
abbrev pub waits : Call → Bool
waits (end_with _ _) = true
waits (end _) = true
waits _ = false

unfoldable pub receive : Casts → Bool → IStream → Result (Option BrokerResult × IStream)
receive c true input = do (r, rest) ← recv_result c input; ok (some r, rest)
receive c false input = ok (none, input)

-- A method: it sends its command on one stream and reads the reply, if any, from the other.
pub client_call :
    Casts → Call → IStream → OStream → Result (Option BrokerResult × IStream × OStream)
client_call c call input output = do
  output' ← send_command c (to_command c call) output
  (r, input') ← receive c (waits call) input
  ok (r, input', output')

module _ {S : Type 0} (c : Casts) (broker : BrokerOps S) where
  run_begin : ℕ → List Bytes → S → Result S
  run_begin id [] s = broker.begin id s
  run_begin id (argument ∷ []) s = broker.begin_as id argument s
  run_begin id (argument ∷ user ∷ real ∷ []) s = do
    user' ← or_throw (c.millis_cast.from_string user) bad_lexical_cast
    real' ← or_throw (c.millis_cast.from_string real) bad_lexical_cast
    broker.begin_with id argument (record { user_time_limit = user'; real_time_limit = real' }) s
  run_begin id _ s = err assertion

  run_send : ℕ → List Bytes → S → Result S
  run_send id (msg ∷ []) s = broker.send id msg s
  run_send id _ s = err assertion

  run_end : ℕ → List Bytes → S → Result (BrokerResult × S)
  run_end id [] s = broker.end id false s
  run_end id (discard ∷ []) s = do
    discard' ← or_throw (c.bool_cast.from_string discard) bad_lexical_cast
    broker.end id discard' s
  run_end id _ s = err assertion

  run_terminate : ℕ → List Bytes → S → Result S
  run_terminate id [] s = broker.terminate id s
  run_terminate id _ s = err assertion

  -- The switch of `run`, on the type of the command.
  unfoldable pub run_type : CommandType → ℕ → List Bytes → S → OStream → Result (S × OStream)
  unfolding run_begin run_send run_end run_terminate
  run_type begin_type id args s out = do s' ← run_begin id args s; ok (s', out)
  run_type send_type id args s out = do s' ← run_send id args s; ok (s', out)
  run_type end_type id args s out = do
    (r, s') ← run_end id args s
    out' ← send_result c r out
    ok (s', out')
  run_type terminate_type id args s out = do s' ← run_terminate id args s; ok (s', out)

  unfoldable pub run : Command → S → OStream → Result (S × OStream)
  unfolding run_type
  run command s out = run_type command.type command.id command.args s out

  unfoldable pub run_once : IStream → S → OStream → Result (S × IStream × OStream)
  unfolding run
  run_once input s out = do
    (command, input') ← recv_command c input
    (s', out') ← run command s out
    ok (s', input', out')

-- How the process of src/bin/broker.cpp ends: `EndOfFileError` ends it with status 0, any other
-- exception with 1, a failed assertion by a signal. `waiting`: it still waits for its environment.
pub data Exit : Type 0 where
  success failure abort waiting : Exit

abbrev pub exit_of : Error → Exit
exit_of end_of_file = success
exit_of assertion = abort
exit_of pending = waiting
exit_of _ = failure

-- The end of the process, with what it had done before the call of `runOnce` that did not return.
pub record Served (S : Type 0) : Type 0 where
  pub exit : Exit
  pub state : S
  pub output : OStream

module _ {S : Type 0} (c : Casts) (broker : BrokerOps S) where
  -- `for (;;) iface->runOnce(broker);` and the handlers of `main`, on fuel.
  unfoldable pub serve : ℕ → IStream → S → OStream → Served S
  serve zero input s out = record { exit = waiting; state = s; output = out }
  serve (suc fuel) input s out = elim (run_once c broker input s out) [
    | ok (s', input', out') ↦ serve fuel input' s' out'
    | err e ↦ record { exit = exit_of e; state = s; output = out }
  ]
