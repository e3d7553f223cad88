-- ===== src/Broker/Impl/Frozen.antt =====
-- Which processes are frozen behind the operations of src/lib/BrokerImpl.cpp.
pub mod Session
use deprecated_yandex_contes.Base.{
  ℕ, Bool, false, not, [], ◌∷◌, ◌++◌, Option, none, some, get_elem?, if◌then◌else◌, ok, >>=-eq-ok,
  assert-ok, ok-injective, Bool-cases, ◌≡◌, sym, ap, subst, ◌∙◌, inl, inr,
}
use deprecated_yandex_contes.Tokenizer.{TokenizerLibrary}
use deprecated_yandex_contes.Killer.{KillerOps, KillerStatus}
use deprecated_yandex_contes.Broker.Types.{BrokerResult, ResultStatus}
use deprecated_yandex_contes.Broker.Communicate.{Environment, Comm, is_continue, communicate}
use deprecated_yandex_contes.Broker.State.{
  Process, Solution, EndEnv, BrokerImpl, Traffic, solution, put_solution, reset, is_null, comm_of,
}
use deprecated_yandex_contes.Broker.Impl.{
  is_protected, is_ok, freeze, unfreeze, terminate, transfer, communicate_with, talk, conclude,
  end_in,
}
use deprecated_yandex_contes.Broker.Impl.Frame.{
  solution_at, put_solution_self, freeze-calls, unfreeze-known, unfreeze-calls,
}

module _ {I T : Type 0} (lib : TokenizerLibrary T) where
  communicate_with-process :
      (env : Environment) (sol : Solution I T) (t : Option T)
      {r : Solution I T × ResultStatus × Comm T}
      → communicate_with lib env sol t ≡ ok r
      → r.0.process ≡ sol.process
  unfolding communicate_with
  communicate_with-process env sol none e = cc
  communicate_with-process env sol (some t) e =
      let (_, _, f) = >>=-eq-ok (communicate lib sol.process.ends _ env (comm_of t sol)) _ e in
      ap (λ (x : Solution I T × ResultStatus × Comm T). x.0.process) (sym (ok-injective f))

module _ {I T K : Type 0} (lib : TokenizerLibrary T) (killer : KillerOps I K)
    (Frozen : K → I → Type 0)
    (refreezes : (i j : I) (k k₁ k₂ : K) (s₁ s₂ : KillerStatus)
      → Frozen k j
      → killer.unfreeze i k ≡ ok (s₁, k₁)
      → killer.freeze i k₁ ≡ ok (s₂, k₂)
      → is_protected s₂ ≡ false
      → Frozen k₂ j)
    (stays_dead : (i j : I) (k k' : K) (s : KillerStatus)
      → Frozen k j
      → killer.terminate i k ≡ ok (s, k')
      → Frozen k' j) where
  pub terminate-Frozen :
      (id : ℕ) (b : BrokerImpl I T K) (j : I) {b' : BrokerImpl I T K}
      → Frozen b.killer j
      → terminate killer id b ≡ ok b'
      → Frozen b'.killer j
  unfolding terminate put_solution
  terminate-Frozen id b j cold e =
      let (sol, _, f) = >>=-eq-ok (solution id b) _ e in
      let ((s, k), p, g) = >>=-eq-ok (killer.terminate sol.process.id b.killer) _ f in
      subst (λ (x : BrokerImpl I T K). Frozen x.killer j) (ok-injective g)
        (stays_dead sol.process.id j b.killer k s cold p)

  reset-Frozen :
      (id : ℕ) (b : BrokerImpl I T K) (j : I) {b' : BrokerImpl I T K}
      → Frozen b.killer j
      → reset id b ≡ ok b'
      → Frozen b'.killer j
  unfolding reset put_solution
  reset-Frozen id b j cold e =
      let (sol, _, f) = >>=-eq-ok (solution id b) _ e in
      subst (λ (x : BrokerImpl I T K). Frozen x.killer j) (ok-injective f) cold

  talk-Frozen :
      (id : ℕ) (env : Environment) (b : BrokerImpl I T K) (j : I)
      {r : ResultStatus × BrokerImpl I T K}
      → Frozen b.killer j
      → talk lib killer id env b ≡ ok r
      → Frozen r.1.killer j
  unfolding talk transfer put_solution
  talk-Frozen id env b j {r} cold e =
      let (b₁, p, f) = >>=-eq-ok (unfreeze killer id b) _ e in
      let (sol, at) = unfreeze-known killer id b p in
      let (s₁, k₁, p₁, _, same₁) = unfreeze-calls killer id b sol at p in
      let at₁ : get_elem? b₁.solutions id ≡ some sol =
        ap (λ (x : BrokerImpl I T K). get_elem? x.solutions id) same₁ ∙ at in
      let ((sol', s, c), p₂, f₂) =
        >>=-eq-ok (transfer lib env sol) _ (rw (solution_at id b₁ at₁) at f) in
      let flow : Traffic = record {
        id = id;
        delivered = c.writer.delivered;
        taken = c.reader.taken;
      } in
      let noted = record b₁ { traffic = b₁.traffic ++ flow ∷ [] } in
      let (b₂, p₃, f₃) = >>=-eq-ok (freeze killer id (put_solution id sol' noted)) _ f₂ in
      let (s₂, k₂, p₄, fine, same₂) =
        freeze-calls killer id (put_solution id sol' noted) sol'
          (put_solution_self id noted sol' at₁) p₃ in
      let who : sol'.process ≡ sol.process =
        communicate_with-process lib env sol sol.tokenizer p₂ in
      let p₅ : killer.freeze sol.process.id k₁ ≡ ok (s₂, k₂) =
        ap (λ (x : BrokerImpl I T K). killer.freeze sol.process.id x.killer) (sym same₁)
        ∙ ap (λ (x : Process I). killer.freeze x.id b₁.killer) (sym who)
        ∙ p₄ in
      subst (λ (x : ResultStatus × BrokerImpl I T K). Frozen x.1.killer j) (ok-injective f₃)
        (subst (λ (x : BrokerImpl I T K). Frozen x.killer j) (sym same₂)
          (refreezes sol.process.id j b.killer k₁ k₂ s₁ s₂ cold p₁ p₅ fine))

  conclude-Frozen :
      (id : ℕ) (discard : Bool) (s : ResultStatus) (b : BrokerImpl I T K) (j : I)
      {r : BrokerResult × BrokerImpl I T K}
      → Frozen b.killer j
      → conclude lib killer id discard s b ≡ ok r
      → Frozen r.1.killer j
  unfolding conclude put_solution
  conclude-Frozen id discard s b j cold e =
      let (sol, _, f) = >>=-eq-ok (solution id b) _ e in
      let b' = put_solution id (record sol { inbuf = if discard then [] else sol.inbuf }) b in
      elim (Bool-cases (is_ok s)) [
        | inl c ↦
            let (b₁, p, g) = >>=-eq-ok (reset id b') _ (rw c at f) in
            subst (λ (x : BrokerResult × BrokerImpl I T K). Frozen x.1.killer j) (ok-injective g)
              (reset-Frozen id b' j cold p)
        | inr d ↦
            let (b₁, p, g) = >>=-eq-ok (terminate killer id b') _ (rw d at f) in
            let (b₂, q, h) = >>=-eq-ok (reset id b₁) _ g in
            subst (λ (x : BrokerResult × BrokerImpl I T K). Frozen x.1.killer j) (ok-injective h)
              (reset-Frozen id b₁ j (terminate-Frozen id b' j cold p) q)
      ]

  -- An end that returns leaves every frozen process frozen, although the solution it is called for
  -- runs meanwhile, if the killer leaves frozen processes frozen when it thaws one and freezes it
  -- again, and when it terminates one.
  pub end_in-Frozen :
      (env : EndEnv) (id : ℕ) (discard : Bool) (b : BrokerImpl I T K) (j : I)
      {r : BrokerResult × BrokerImpl I T K}
      → Frozen b.killer j
      → end_in lib killer env id discard b ≡ ok r
      → Frozen r.1.killer j
  unfolding end_in
  end_in-Frozen env id discard b j {r} cold e =
      let (sol, _, f) = >>=-eq-ok (solution id b) _ e in
      let (_, g) = assert-ok (not (is_null sol.tokenizer)) f in
      elim (Bool-cases (is_continue sol.tokenizer_status)) [
        | inl c ↦
            let ((s, b'), p, h) = >>=-eq-ok (talk lib killer id env.environment b) _ (rw c at g) in
            conclude-Frozen id discard s b' j (talk-Frozen id env.environment b j cold p) h
        | inr d ↦ conclude-Frozen id discard env.uninitialised b j cold (rw d at g)
      ]
