-- ===== src/Broker/Impl/Simulation.antt =====
-- The operations of src/lib/BrokerImpl.cpp with two killers that answer alike.
pub mod End
use deprecated_yandex_contes.Base.{ℕ, not, Bytes, ◌>>=◌, ◌>>◌, assert, ◌≡◌, refl, subst}
use deprecated_yandex_contes.Base.Simulation.{Sim, Pair, >>=-Pair, Sim-same}
use deprecated_yandex_contes.Tokenizer.{instance_of, TokenizerLibrary}
use deprecated_yandex_contes.Killer.{
  KillerOps, KillerAction, freeze_action, unfreeze_action, terminate_action, perform,
}
use deprecated_yandex_contes.Broker.Types.{ResourceLimits}
use deprecated_yandex_contes.Broker.State.{BrokerImpl, solution, put_solution, reset, is_null}
use deprecated_yandex_contes.Broker.State
use deprecated_yandex_contes.Broker.Impl.{
  is_protected, freeze, unfreeze, terminate, scan_outbuf, begin_with, begin_as, begin,
}
use deprecated_yandex_contes.Broker.Impl

module _ {I T K : Type 0} where
  abbrev pub with_killer : {X : Type 0} → X → BrokerImpl I T K → BrokerImpl I T X
  with_killer x b = record {
    default_limits = b.default_limits;
    default_argument = b.default_argument;
    solutions = b.solutions;
    killer = x;
    ahead = b.ahead;
    traffic = b.traffic;
  }

module _ {I T K L : Type 0} (R : K → L → Type 0) where
  -- The brokers differ in the state of their killers only.
  abbrev pub Alike : BrokerImpl I T K → BrokerImpl I T L → Type 0
  Alike b c =
      (b.default_limits ≡ c.default_limits)
      × (b.default_argument ≡ c.default_argument)
      × (b.solutions ≡ c.solutions)
      × (b.ahead ≡ c.ahead)
      × (b.traffic ≡ c.traffic)
      × R b.killer c.killer

  -- To show something of brokers that are alike, take two that share all but the killer.
  Alike-rec :
      (Q : BrokerImpl I T K → BrokerImpl I T L → Type 0)
      → ((b : BrokerImpl I T K) (l : L) → R b.killer l → Q b (with_killer l b))
      → (b : BrokerImpl I T K) (c : BrokerImpl I T L) → Alike b c
      → Q b c
  Alike-rec Q q b c (limits, argument, solutions, ahead, traffic, related) =
      subst (Q b) (rw (limits, argument, solutions, ahead, traffic) refl) (q b c.killer related)

module _ {I T K L : Type 0} (killer : KillerOps I K) (remote : KillerOps I L)
    (R : K → L → Type 0) where
  module _
      (simulates : (action : KillerAction) (id : I) (k : K) (l : L)
        → R k l
        → Sim (Pair R) (perform killer action id k) (perform remote action id l)) where
    freeze-Sim :
        (id : ℕ) (b : BrokerImpl I T K) (c : BrokerImpl I T L)
        → Alike R b c
        → Sim (Alike R) (freeze killer id b) (freeze remote id c)
    unfolding freeze solution
    freeze-Sim id =
        Alike-rec R (λ b c. Sim (Alike R) (freeze killer id b) (freeze remote id c))
          λ b l related. Sim-same (Alike R) (solution id b) _ _ λ sol.
            >>=-Pair R (Alike R) (killer.freeze sol.process.id b.killer)
              (remote.freeze sol.process.id l) _ _
              (simulates freeze_action sol.process.id b.killer l related)
              λ s k k' same.
                Sim-same (Alike R) (assert (not (is_protected s))) _ _
                  λ _. (refl, refl, refl, refl, refl, same)

    unfreeze-Sim :
        (id : ℕ) (b : BrokerImpl I T K) (c : BrokerImpl I T L)
        → Alike R b c
        → Sim (Alike R) (unfreeze killer id b) (unfreeze remote id c)
    unfolding unfreeze solution
    unfreeze-Sim id =
        Alike-rec R (λ b c. Sim (Alike R) (unfreeze killer id b) (unfreeze remote id c))
          λ b l related. Sim-same (Alike R) (solution id b) _ _ λ sol.
            >>=-Pair R (Alike R) (killer.unfreeze sol.process.id b.killer)
              (remote.unfreeze sol.process.id l) _ _
              (simulates unfreeze_action sol.process.id b.killer l related)
              λ s k k' same.
                Sim-same (Alike R) (assert (not (is_protected s))) _ _
                  λ _. (refl, refl, refl, refl, refl, same)

    pub terminate-Sim :
        (id : ℕ) (b : BrokerImpl I T K) (c : BrokerImpl I T L)
        → Alike R b c
        → Sim (Alike R) (terminate killer id b) (terminate remote id c)
    unfolding terminate solution put_solution
    terminate-Sim id =
        Alike-rec R (λ b c. Sim (Alike R) (terminate killer id b) (terminate remote id c))
          λ b l related. Sim-same (Alike R) (solution id b) _ _ λ sol.
            >>=-Pair R (Alike R) (killer.terminate sol.process.id b.killer)
              (remote.terminate sol.process.id l) _ _
              (simulates terminate_action sol.process.id b.killer l related)
              λ s k k' same. (refl, refl, refl, refl, refl, same)

    reset-Sim :
        (id : ℕ) (b : BrokerImpl I T K) (c : BrokerImpl I T L)
        → Alike R b c
        → Sim (Alike R) (reset id b) (reset id c)
    unfolding reset solution put_solution
    reset-Sim id =
        Alike-rec R (λ b c. Sim (Alike R) (reset id b) (reset id c))
          λ b l related.
            Sim-same (Alike R) (solution id b) _ _ λ sol. (refl, refl, refl, refl, refl, related)

    pub send-Sim :
        (id : ℕ) (msg : Bytes) (b : BrokerImpl I T K) (c : BrokerImpl I T L)
        → Alike R b c
        → Sim (Alike R) (State.send id msg b) (State.send id msg c)
    unfolding State.send solution put_solution
    send-Sim id msg =
        Alike-rec R (λ b c. Sim (Alike R) (State.send id msg b) (State.send id msg c))
          λ b l related. Sim-same (Alike R) (solution id b) _ _ λ sol.
            Sim-same (Alike R) (assert (not (is_null sol.tokenizer))) _ _
              λ _. (refl, refl, refl, refl, refl, related)

    module _ (lib : TokenizerLibrary T) where
      pub begin_with-Sim :
          (id : ℕ) (argument : Bytes) (limits : ResourceLimits) (b : BrokerImpl I T K)
          (c : BrokerImpl I T L)
          → Alike R b c
          → Sim
              (Alike R)
              (begin_with lib id argument limits b)
              (begin_with lib id argument limits c)
      unfolding begin_with solution put_solution
      begin_with-Sim id argument limits =
          Alike-rec R
            (λ b c.
              Sim (Alike R) (begin_with lib id argument limits b)
                (begin_with lib id argument limits c))
            λ b l related. Sim-same (Alike R) (solution id b) _ _ λ sol.
              Sim-same (Alike R) (assert (is_null sol.tokenizer)) _ _ λ _.
                Sim-same (Alike R) (instance_of lib argument) _ _ λ t.
                  Sim-same (Alike R) (scan_outbuf lib t _ sol.outbuf) _ _
                    λ sol'. (refl, refl, refl, refl, refl, related)

      pub begin_as-Sim :
          (id : ℕ) (argument : Bytes) (b : BrokerImpl I T K) (c : BrokerImpl I T L)
          → Alike R b c
          → Sim (Alike R) (begin_as lib id argument b) (begin_as lib id argument c)
      unfolding begin_as
      begin_as-Sim id argument =
          Alike-rec R
            (λ b c. Sim (Alike R) (begin_as lib id argument b) (begin_as lib id argument c))
            λ b l related.
              begin_with-Sim id argument b.default_limits b (with_killer l b)
                (refl, refl, refl, refl, refl, related)

      pub begin-Sim :
          (id : ℕ) (b : BrokerImpl I T K) (c : BrokerImpl I T L)
          → Alike R b c
          → Sim (Alike R) (begin lib id b) (begin lib id c)
      unfolding begin
      begin-Sim id =
          Alike-rec R (λ b c. Sim (Alike R) (begin lib id b) (begin lib id c))
            λ b l related.
              begin_as-Sim id b.default_argument b (with_killer l b)
                (refl, refl, refl, refl, refl, related)
