-- ===== src/Tests/Broker/Remote.antt =====
-- A broker whose killer is in another process, next to one that calls it.
use deprecated_yandex_contes.Base.{ℕ, true, false, [], ◌∷◌, codes, refl}
use deprecated_yandex_contes.Text.Streams.{IStream, OStream}
use deprecated_yandex_contes.Tokenizer.SplitChar.{SplitChar}
use deprecated_yandex_contes.Killer.{freeze_action, unfreeze_action, terminate_action}
use deprecated_yandex_contes.Killer.Stream.Link.{Link, Answers, remote}
use deprecated_yandex_contes.Broker.Interface.{begin, send, end, serve}
use deprecated_yandex_contes.Broker.Interface.Session.{script}
use deprecated_yandex_contes.Broker.Interface.Simulation.{Ends}
use deprecated_yandex_contes.Broker.State.{BrokerImpl}
use deprecated_yandex_contes.Broker.Impl.{impl}
use deprecated_yandex_contes.Broker.Impl.Simulation.{with_killer}
use deprecated_yandex_contes.Broker.Impl.Remote.{Behind, serve-remote}
use deprecated_yandex_contes.Tests.Samples.{casts}
use deprecated_yandex_contes.Tests.Killer.{pods, commands-IsPod, statuses-IsPod}
use deprecated_yandex_contes.Tests.Broker.Solutions.{lib, killer, fresh_broker}

answers : Answers killer
answers freeze_action id k = (_, refl)
answers unfreeze_action id k = (_, refl)
answers terminate_action id k = (_, refl)

abbrev sink : OStream
sink = record { sent = []; good = true }

abbrev linked : BrokerImpl ℕ SplitChar (Link ℕ)
linked =
    with_killer (record { server = 2; requests = []; replies = []; output = sink }) fresh_broker

abbrev input : IStream
input = record { rest = script casts (begin 0 ∷ send 0 (codes "a") ∷ end 0 ∷ []); broken = false }

serve-remote_example :
    Ends Behind
      (serve casts (impl lib killer) 4 input fresh_broker sink)
      (serve casts (impl lib (remote pods killer)) 4 input linked sink)
serve-remote_example =
    serve-remote pods commands-IsPod statuses-IsPod lib killer answers casts 4 input fresh_broker
      linked sink (refl, refl, refl, refl, refl, (refl, refl, refl, refl))
