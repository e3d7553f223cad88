-- ===== src/Broker/Impl/Remote.antt =====
-- The broker of src/bin/broker.cpp with its killer behind the streams to src/bin/killer.cpp.
use deprecated_yandex_contes.Base.{ℕ}
use deprecated_yandex_contes.Base.Simulation.{Sim, Pair}
use deprecated_yandex_contes.Text.Streams.{IStream, OStream}
use deprecated_yandex_contes.Tokenizer.{TokenizerLibrary}
use deprecated_yandex_contes.Killer.{
  KillerOps, KillerAction, perform, freeze_action, unfreeze_action, terminate_action,
}
use deprecated_yandex_contes.Killer.Stream.{Pods, IsPod}
use deprecated_yandex_contes.Killer.Stream.Link.{Link, Linked, Answers, remote, remote_call-Sim}
use deprecated_yandex_contes.Broker.Types.{Casts}
use deprecated_yandex_contes.Broker.Interface.{serve}
use deprecated_yandex_contes.Broker.Interface.Simulation.{Similar, Ends, serve-Ends}
use deprecated_yandex_contes.Broker.State.{BrokerImpl}
use deprecated_yandex_contes.Broker.Impl.{impl}
use deprecated_yandex_contes.Broker.Impl.Simulation.{
  Alike, begin_with-Sim, begin_as-Sim, begin-Sim, send-Sim, terminate-Sim,
}
use deprecated_yandex_contes.Broker.Impl.Simulation.End.{end-Sim}

-- The same broker, but for its killer, which is the server behind an idle link.
abbrev pub Behind : {I T K : Type 0} → BrokerImpl I T K → BrokerImpl I T (Link K) → Type 0
Behind = Alike Linked

module _ {I T K : Type 0} (pods : Pods I) (commands : IsPod pods.command)
    (statuses : IsPod pods.status) (lib : TokenizerLibrary T) (killer : KillerOps I K)
    (answers : Answers killer) where
  simulates :
      (action : KillerAction) (id : I) (k : K) (l : Link K)
      → Linked k l
      → Sim (Pair Linked) (perform killer action id k) (perform (remote pods killer) action id l)
  simulates freeze_action = remote_call-Sim pods commands statuses killer answers freeze_action
  simulates unfreeze_action = remote_call-Sim pods commands statuses killer answers unfreeze_action
  simulates terminate_action =
      remote_call-Sim pods commands statuses killer answers terminate_action

  impl-Similar : Similar Behind (impl lib killer) (impl lib (remote pods killer))
  impl-Similar = record {
    begin_with = begin_with-Sim killer (remote pods killer) Linked simulates lib;
    begin_as = begin_as-Sim killer (remote pods killer) Linked simulates lib;
    begin = begin-Sim killer (remote pods killer) Linked simulates lib;
    send = send-Sim killer (remote pods killer) Linked simulates;
    end = end-Sim killer (remote pods killer) Linked simulates lib;
    terminate = terminate-Sim killer (remote pods killer) Linked simulates;
  }

  -- The loop of broker.cpp over a broker whose killer is the process behind the two streams exits
  -- alike and writes the same output as over the broker that calls this killer itself, and leaves
  -- the same state, on any input and fuel. The killer answers every call, messages have a fixed
  -- size and are read back from their bytes, and the brokers start alike with an idle link.
  pub serve-remote :
      (c : Casts) (fuel : ℕ) (input : IStream) (b : BrokerImpl I T K) (b' : BrokerImpl I T (Link K))
      (out : OStream)
      → Behind b b'
      → Ends Behind
          (serve c (impl lib killer) fuel input b out)
          (serve c (impl lib (remote pods killer)) fuel input b' out)
  serve-remote c fuel input b b' out alike =
      serve-Ends Behind c (impl lib killer) (impl lib (remote pods killer)) impl-Similar fuel input
        b b' out alike
