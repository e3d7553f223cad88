-- ===== src/Broker/Impl/Simulation/End.antt =====
-- `end` of src/lib/BrokerImpl.cpp with two killers that answer alike.
use deprecated_yandex_contes.Base.{
  ℕ, Bool, not, List, [], ◌∷◌, ◌++◌, set, if◌then◌else◌, Result, ok, ◌>>=◌, assert, refl,
  Bool-cases, inl, inr,
}
use deprecated_yandex_contes.Base.Simulation.{Sim, Pair, >>=-Sim, >>=-Pair, Sim-same}
use deprecated_yandex_contes.Tokenizer.{TokenizerLibrary}
use deprecated_yandex_contes.Killer.{KillerOps, KillerAction, perform}
use deprecated_yandex_contes.Broker.Types.{ResultStatus}
use deprecated_yandex_contes.Broker.Communicate.{Environment, Comm, is_continue}
use deprecated_yandex_contes.Broker.State.{
  Solution, EndEnv, BrokerImpl, solution, put_solution, reset, is_null,
}
use deprecated_yandex_contes.Broker.Impl.{
  is_protected, is_ok, freeze, unfreeze, terminate, setup_from, new_broker, scan_outbuf, transfer,
  verdict, begin_with, begin_as, begin, talk, conclude, end_in, impl,
}
use deprecated_yandex_contes.Broker.Impl
use deprecated_yandex_contes.Broker.Impl.Simulation.{
  Alike, Alike-rec, with_killer, freeze-Sim, unfreeze-Sim, reset-Sim, terminate-Sim,
}

module _ {I T K : Type 0} where
  -- The state before a talk ends with its freeze.
  abbrev passed : ℕ → Solution I T × ResultStatus × Comm T → BrokerImpl I T K → BrokerImpl I T K
  passed id (sol, _, c) b = record b {
    solutions = set b.solutions id sol;
    traffic =
        b.traffic
        ++ (record { id = id; delivered = c.writer.delivered; taken = c.reader.taken }) ∷ [];
  }

  -- A talk behind its `unfreeze`.
  talking :
      TokenizerLibrary T
      → KillerOps I K
      → ℕ
      → Environment
      → BrokerImpl I T K
      → Result (ResultStatus × BrokerImpl I T K)
  talking lib killer id env b = do
    sol ← solution id b
    moved ← transfer lib env sol
    b' ← freeze killer id (passed id moved b)
    ok (moved.1, b')

module _ {I T K L : Type 0} (killer : KillerOps I K) (remote : KillerOps I L) (R : K → L → Type 0)
    (simulates : (action : KillerAction) (id : I) (k : K) (l : L)
      → R k l
      → Sim (Pair R) (perform killer action id k) (perform remote action id l))
    (lib : TokenizerLibrary T) where
  talk-Sim :
      (id : ℕ) (env : Environment) (b : BrokerImpl I T K) (c : BrokerImpl I T L)
      → Alike R b c
      → Sim (Pair (Alike R)) (talk lib killer id env b) (talk lib remote id env c)
  unfolding talk talking solution put_solution
  talk-Sim id env b c alike =
      >>=-Sim (Alike R) (Pair (Alike R)) (unfreeze killer id b) (unfreeze remote id c) _ _
        (unfreeze-Sim killer remote R simulates id b c alike)
        (Alike-rec R
          (λ b c. Sim (Pair (Alike R)) (talking lib killer id env b) (talking lib remote id env c))
          λ b l related. Sim-same (Pair (Alike R)) (solution id b) _ _ λ sol.
            Sim-same (Pair (Alike R)) (transfer lib env sol) _ _ λ moved.
              >>=-Sim (Alike R) (Pair (Alike R)) (freeze killer id (passed id moved b))
                (freeze remote id (passed id moved (with_killer l b))) _ _
                (freeze-Sim killer remote R simulates id (passed id moved b)
                  (passed id moved (with_killer l b)) (refl, refl, refl, refl, refl, related))
                λ b' c' alike'. (refl, alike'))

  conclude-Sim :
      (id : ℕ) (discard : Bool) (s : ResultStatus) (b : BrokerImpl I T K) (c : BrokerImpl I T L)
      → Alike R b c
      → Sim
          (Pair (Alike R))
          (conclude lib killer id discard s b)
          (conclude lib remote id discard s c)
  unfolding conclude solution put_solution
  conclude-Sim id discard s =
      Alike-rec R
        (λ b c.
          Sim (Pair (Alike R)) (conclude lib killer id discard s b)
            (conclude lib remote id discard s c))
        λ b l related. Sim-same (Pair (Alike R)) (solution id b) _ _ λ sol.
          let b' = put_solution id (record sol { inbuf = if discard then [] else sol.inbuf }) b in
          let alike : Alike R b' (with_killer l b') = (refl, refl, refl, refl, refl, related) in
          elim (Bool-cases (is_ok s)) [
            | inl e ↦ rw e (
                >>=-Sim (Alike R) (Pair (Alike R)) (reset id b') (reset id (with_killer l b')) _ _
                  (reset-Sim killer remote R simulates id b' (with_killer l b') alike)
                  λ x y after. (refl, after))
            | inr d ↦ rw d (
                >>=-Sim (Alike R) (Pair (Alike R)) (terminate killer id b')
                  (terminate remote id (with_killer l b')) _ _
                  (terminate-Sim killer remote R simulates id b' (with_killer l b') alike)
                  λ x y between.
                    >>=-Sim (Alike R) (Pair (Alike R)) (reset id x) (reset id y) _ _
                      (reset-Sim killer remote R simulates id x y between)
                      λ x' y' after. (refl, after))
          ]

  end_in-Sim :
      (env : EndEnv) (id : ℕ) (discard : Bool) (b : BrokerImpl I T K) (c : BrokerImpl I T L)
      → Alike R b c
      → Sim
          (Pair (Alike R))
          (end_in lib killer env id discard b)
          (end_in lib remote env id discard c)
  unfolding end_in solution
  end_in-Sim env id discard =
      Alike-rec R
        (λ b c.
          Sim (Pair (Alike R)) (end_in lib killer env id discard b)
            (end_in lib remote env id discard c))
        λ b l related. Sim-same (Pair (Alike R)) (solution id b) _ _ λ sol.
          Sim-same (Pair (Alike R)) (assert (not (is_null sol.tokenizer))) _ _ λ _.
            let alike : Alike R b (with_killer l b) = (refl, refl, refl, refl, refl, related) in
            elim (Bool-cases (is_continue sol.tokenizer_status)) [
              | inl e ↦ rw e (
                  >>=-Pair (Alike R) (Pair (Alike R)) (talk lib killer id env.environment b)
                    (talk lib remote id env.environment (with_killer l b)) _ _
                    (talk-Sim id env.environment b (with_killer l b) alike)
                    λ s x y after. conclude-Sim id discard s x y after)
              | inr d ↦ rw d (conclude-Sim id discard env.uninitialised b (with_killer l b) alike)
            ]

  pub end-Sim :
      (id : ℕ) (discard : Bool) (b : BrokerImpl I T K) (c : BrokerImpl I T L)
      → Alike R b c
      → Sim (Pair (Alike R)) (Impl.end lib killer id discard b) (Impl.end lib remote id discard c)
  unfolding Impl.end
  end-Sim id discard =
      Alike-rec R
        (λ b c.
          Sim (Pair (Alike R)) (Impl.end lib killer id discard b)
            (Impl.end lib remote id discard c))
        λ b l related. ended b l b.ahead related
    where
      ended :
          (b : BrokerImpl I T K) (l : L) (ahead : List EndEnv)
          → R b.killer l
          → Sim
              (Pair (Alike R))
              (Impl.end lib killer id discard (record b { ahead = ahead }))
              (Impl.end lib remote id discard (with_killer l (record b { ahead = ahead })))
      ended b l [] related = refl
      ended b l (env ∷ rest) related =
          end_in-Sim env id discard (record b { ahead = rest })
            (with_killer l (record b { ahead = rest })) (refl, refl, refl, refl, refl, related)
