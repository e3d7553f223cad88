-- ===== src/Broker/Impl/Frame.antt =====
-- What the operations of src/lib/BrokerImpl.cpp leave as it is: lookups of a solution behind them.
use deprecated_yandex_contes.Base.{
  Bool, List, ◌∷◌, pending, false, ℕ, not, [], none, some, Option-cases, get_elem?,
  get_elem?-set_self, set, ok, err, >>=-eq-ok, assert-ok, ok-injective, assertion, ◌≡◌, refl, sym,
  ap, ◌∙◌, inl, inr, arith,
}
use deprecated_yandex_contes.Tokenizer.{TokenizerLibrary}
use deprecated_yandex_contes.Broker.Types.{BrokerResult}
use deprecated_yandex_contes.Killer.{KillerStatus, KillerOps}
use deprecated_yandex_contes.Broker.State.{
  Solution, BrokerImpl, EndEnv, solution, put_solution, reset,
}
use deprecated_yandex_contes.Broker.Impl.{is_protected, freeze, unfreeze, terminate, end_in, end}

module _ {I T K : Type 0} where
  pub solution_at :
      (id : ℕ) (b : BrokerImpl I T K) {sol : Solution I T}
      → get_elem? b.solutions id ≡ some sol
      → solution id b ≡ ok sol
  unfolding solution
  solution_at id b h = rw h refl

  pub solution-ok :
      (id : ℕ) (b : BrokerImpl I T K) {sol : Solution I T}
      → solution id b ≡ ok sol
      → get_elem? b.solutions id ≡ some sol
  unfolding solution
  solution-ok id b {sol} h = elim (Option-cases (get_elem? b.solutions id)) [
    | inl n ↦ let bad : err assertion ≡ ok sol = rw n at h in cc
    | inr (s, e) ↦ let same : ok s ≡ ok sol = rw e at h in e ∙ ap some (ok-injective same)
  ]

  pub solution-none :
      (id : ℕ) (b : BrokerImpl I T K)
      → get_elem? b.solutions id ≡ none
      → solution id b ≡ err assertion
  unfolding solution
  solution-none id b h = rw h refl

  -- Looked up where it stands, a solution is the one that was put there.
  pub put_solution_self :
      (id : ℕ) (b : BrokerImpl I T K) (new : Solution I T) {sol : Solution I T}
      → get_elem? b.solutions id ≡ some sol
      → get_elem? (put_solution id new b).solutions id ≡ some new
  unfolding put_solution
  put_solution_self id b new h = get_elem?-set_self b.solutions id new h

  pub put_solution-set :
      (id : ℕ) (b : BrokerImpl I T K) (new : Solution I T)
      → (put_solution id new b).solutions ≡ set b.solutions id new
  unfolding put_solution
  put_solution-set id b new = refl

  pub reset-ok :
      (id : ℕ) (b : BrokerImpl I T K) {sol : Solution I T} {b' : BrokerImpl I T K}
      → get_elem? b.solutions id ≡ some sol
      → reset id b ≡ ok b'
      → b' ≡ put_solution id (record sol { tokenizer = none }) b
  unfolding reset
  reset-ok id b at e = sym (ok-injective (rw (solution_at id b at) at e))

  module _ (killer : KillerOps I K) where
    -- What a call of `freeze` or `unfreeze` that returns asked of the killer.
    pub freeze-calls :
        (id : ℕ) (b : BrokerImpl I T K) (sol : Solution I T) {b' : BrokerImpl I T K}
        → get_elem? b.solutions id ≡ some sol
        → freeze killer id b ≡ ok b'
        → (s : KillerStatus) × (k : K) × (killer.freeze sol.process.id b.killer ≡ ok (s, k))
          × (is_protected s ≡ false)
          × (b' ≡ record b { killer = k })
    unfolding freeze
    freeze-calls id b sol at e =
        let f = rw (solution_at id b at) at e in
        let ((s, k), p, g) = >>=-eq-ok (killer.freeze sol.process.id b.killer) _ f in
        let (fine, h) = assert-ok (not (is_protected s)) g in
        (s, k, p, ground arith, sym (ok-injective h))

    pub unfreeze-known :
        (id : ℕ) (b : BrokerImpl I T K) {b' : BrokerImpl I T K}
        → unfreeze killer id b ≡ ok b'
        → (sol : Solution I T) × (get_elem? b.solutions id ≡ some sol)
    unfolding unfreeze
    unfreeze-known id b e =
        let (sol, q, _) = >>=-eq-ok (solution id b) _ e in (sol, solution-ok id b q)

    pub unfreeze-calls :
        (id : ℕ) (b : BrokerImpl I T K) (sol : Solution I T) {b' : BrokerImpl I T K}
        → get_elem? b.solutions id ≡ some sol
        → unfreeze killer id b ≡ ok b'
        → (s : KillerStatus) × (k : K) × (killer.unfreeze sol.process.id b.killer ≡ ok (s, k))
          × (is_protected s ≡ false)
          × (b' ≡ record b { killer = k })
    unfolding unfreeze
    unfreeze-calls id b sol at e =
        let f = rw (solution_at id b at) at e in
        let ((s, k), p, g) = >>=-eq-ok (killer.unfreeze sol.process.id b.killer) _ f in
        let (fine, h) = assert-ok (not (is_protected s)) g in
        (s, k, p, ground arith, sym (ok-injective h))

    -- The killer's calls change no solution.
    pub freeze-ok :
        (id : ℕ) (b : BrokerImpl I T K) {b' : BrokerImpl I T K}
        → freeze killer id b ≡ ok b'
        → (k : K) × (b' ≡ record b { killer = k })
    unfolding freeze
    freeze-ok id b e =
        let (sol, _, f) = >>=-eq-ok (solution id b) _ e in
        let ((s, k), _, g) = >>=-eq-ok (killer.freeze sol.process.id b.killer) _ f in
        let (_, h) = assert-ok (not (is_protected s)) g in (k, sym (ok-injective h))

    pub unfreeze-ok :
        (id : ℕ) (b : BrokerImpl I T K) {b' : BrokerImpl I T K}
        → unfreeze killer id b ≡ ok b'
        → (k : K) × (b' ≡ record b { killer = k })
    unfolding unfreeze
    unfreeze-ok id b e =
        let (sol, _, f) = >>=-eq-ok (solution id b) _ e in
        let ((s, k), _, g) = >>=-eq-ok (killer.unfreeze sol.process.id b.killer) _ f in
        let (_, h) = assert-ok (not (is_protected s)) g in (k, sym (ok-injective h))

    pub terminate-ok :
        (id : ℕ) (b : BrokerImpl I T K) {sol : Solution I T} {b' : BrokerImpl I T K}
        → get_elem? b.solutions id ≡ some sol
        → terminate killer id b ≡ ok b'
        → (k : K) × (b'
            ≡ put_solution id
                (record sol { tokenizer = none; inbuf = []; outbuf = [] })
                (record b { killer = k }))
    unfolding terminate
    terminate-ok id b {sol} at e =
        let f = rw (solution_at id b at) at e in
        let ((_, k), _, g) = >>=-eq-ok (killer.terminate sol.process.id b.killer) _ f in
        (k, sym (ok-injective g))

module _ {I T K : Type 0} (lib : TokenizerLibrary T) (killer : KillerOps I K) where
  -- The environment that an `end` which returns runs in.
  pub end-end_in :
      (ahead : List EndEnv) (id : ℕ) (discard : Bool) (b : BrokerImpl I T K)
      {r : BrokerResult × BrokerImpl I T K}
      → b.ahead ≡ ahead
      → end lib killer id discard b ≡ ok r
      → (env : EndEnv) × (rest : List EndEnv) × (end_in lib killer env id discard
            (record b { ahead = rest })
          ≡ ok r)
  unfolding end
  end-end_in [] id discard b {r} h e = let bad : err pending ≡ ok r = rw h at e in cc
  end-end_in (env ∷ rest) id discard b h e = (env, rest, rw h at e)
