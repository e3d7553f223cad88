-- ===== src/Broker/Impl/Protocol/Refused.antt =====
-- The calls that the assertions of src/lib/BrokerImpl.cpp refuse.
use deprecated_yandex_contes.Base.{
  ℕ, Bool, true, false, not, List, ◌∷◌, Option, none, some, Bytes, get_elem?, err, assertion, ◌≡◌,
  refl,
}
use deprecated_yandex_contes.Tokenizer.{TokenizerLibrary}
use deprecated_yandex_contes.Killer.{KillerOps}
use deprecated_yandex_contes.Broker.Types.{ResourceLimits}
use deprecated_yandex_contes.Broker.Interface.{
  Call, begin_with, begin_as, begin, send, end_with, end, terminate,
}
use deprecated_yandex_contes.Broker.Interface.Calls.{exec, call_id}
use deprecated_yandex_contes.Broker.State.{Solution, EndEnv, BrokerImpl, is_null, put_solution}
use deprecated_yandex_contes.Broker.State
use deprecated_yandex_contes.Broker.Impl.{impl, end_in, is_ok}
use deprecated_yandex_contes.Broker.Impl
use deprecated_yandex_contes.Broker.Impl.Frame.{solution_at, solution-none}
use deprecated_yandex_contes.Broker.Impl.Protocol.{
  phase_at, phase_of, phase_from, is_idle, takes, Phase,
}

-- Whether the call may be made: the solution exists and is in a phase that fits.
abbrev pub may : Call → Option Phase → Bool
may call none = false
may call (some p) = takes call p

busy : {T : Type 0} (t : Option T) → is_idle (phase_from (is_null t)) ≡ false → is_null t ≡ false
busy none n = cc
busy (some t) n = refl

free :
    {T : Type 0} (t : Option T) → not (is_idle (phase_from (is_null t))) ≡ false → is_null t ≡ true
free none n = refl
free (some t) n = cc

module _ {I T K : Type 0} (lib : TokenizerLibrary T) (killer : KillerOps I K) where
  begin_with-refused :
      (id : ℕ) (argument : Bytes) (limits : ResourceLimits) (b : BrokerImpl I T K)
      (at : Option (Solution I T))
      → get_elem? b.solutions id ≡ at
      → may (begin id) (phase_of at) ≡ false
      → Impl.begin_with lib id argument limits b ≡ err assertion
  unfolding Impl.begin_with
  begin_with-refused id argument limits b none h n = rw (solution-none id b h)
  begin_with-refused id argument limits b (some sol) h n =
      rw (solution_at id b h, busy sol.tokenizer n)

  send-refused :
      (id : ℕ) (msg : Bytes) (b : BrokerImpl I T K) (at : Option (Solution I T))
      → get_elem? b.solutions id ≡ at
      → may (send id msg) (phase_of at) ≡ false
      → State.send id msg b ≡ err assertion
  unfolding State.send
  send-refused id msg b none h n = rw (solution-none id b h)
  send-refused id msg b (some sol) h n = rw (solution_at id b h, free sol.tokenizer n)

  end_in-refused :
      (env : EndEnv) (id : ℕ) (discard : Bool) (b : BrokerImpl I T K) (at : Option (Solution I T))
      → get_elem? b.solutions id ≡ at
      → may (end id) (phase_of at) ≡ false
      → end_in lib killer env id discard b ≡ err assertion
  unfolding end_in
  end_in-refused env id discard b none h n = rw (solution-none id b h)
  end_in-refused env id discard b (some sol) h n = rw (solution_at id b h, free sol.tokenizer n)

  terminate-refused :
      (id : ℕ) (b : BrokerImpl I T K) (at : Option (Solution I T))
      → get_elem? b.solutions id ≡ at
      → may (terminate id) (phase_of at) ≡ false
      → Impl.terminate killer id b ≡ err assertion
  unfolding Impl.terminate
  terminate-refused id b none h n = rw (solution-none id b h)
  terminate-refused id b (some sol) h n = cc

  -- A call of BrokerImpl for a solution that does not exist, a begin within an iteration, and a
  -- send or an end outside of one fail with an assertion. The list of what the calls of end will
  -- meet is not empty.
  pub exec-refused :
      (call : Call) (b : BrokerImpl I T K) {env : EndEnv} {rest : List EndEnv}
      → b.ahead ≡ env ∷ rest
      → may call (phase_at (call_id call) b) ≡ false
      → exec (impl lib killer) call b ≡ err assertion
  unfolding exec Impl.begin_as Impl.begin Impl.end
  exec-refused (begin_with id argument limits) b h n =
      rw (begin_with-refused id argument limits b _ refl n)
  exec-refused (begin_as id argument) b h n =
      rw (begin_with-refused id argument b.default_limits b _ refl n)
  exec-refused (begin id) b h n =
      rw (begin_with-refused id b.default_argument b.default_limits b _ refl n)
  exec-refused (send id msg) b h n = rw (send-refused id msg b _ refl n)
  exec-refused (end_with id discard) b {env} {rest} h n =
      rw (h, end_in-refused env id discard (record b { ahead = rest }) _ refl n)
  exec-refused (end id) b {env} {rest} h n =
      rw (h, end_in-refused env id false (record b { ahead = rest }) _ refl n)
  exec-refused (terminate id) b h n = rw (terminate-refused id b _ refl n)
