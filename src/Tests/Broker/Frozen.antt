-- ===== src/Tests/Broker/Frozen.antt =====
-- A session with a killer that knows which processes are frozen.
use deprecated_yandex_contes.Base.{
  All, ◌⊎◌, not, subst, ap, ok-injective, Result, ℕ, Bool, true, false, [], ◌∷◌, codes, ◌==◌,
  if◌then◌else◌, ok, Bool-cases, inl, inr, ◌≡◌, refl, arith,
}
use deprecated_yandex_contes.Tokenizer.{continue}
use deprecated_yandex_contes.Tokenizer.SplitChar.{SplitChar}
use deprecated_yandex_contes.Killer.{KillerOps, KillerStatus}
use deprecated_yandex_contes.Killer
use deprecated_yandex_contes.Broker.Descriptors.{setnonblock, set_flags, set_done}
use deprecated_yandex_contes.Broker.State.{Process, BrokerImpl, solution, put_solution}
use deprecated_yandex_contes.Broker.Impl.{
  construct, impl, new_broker, setup_from, is_protected, freeze,
}
use deprecated_yandex_contes.Broker.Impl.Frozen.Session.{Stopped, serve-Frozen}
use deprecated_yandex_contes.Broker.Interface.{begin, send, end, serve}
use deprecated_yandex_contes.Broker.Interface.Session.{script}
use deprecated_yandex_contes.Tests.Samples.{casts}
use deprecated_yandex_contes.Tests.Broker.Solutions.{table, lib, env, two_processes, fresh_broker}

-- The state: whether a process is frozen. The process 6 cannot be.
abbrev freezer : KillerOps ℕ (ℕ → Bool)
freezer = record {
  freeze = λ i k. ok (
    if i == 6 then Killer.error_status else Killer.ok_status,
    λ j. if i == j then not (i == 6) else k j,
  );
  unfreeze = λ i k. ok (Killer.ok_status, λ j. if i == j then false else k j);
  terminate = λ _ k. ok (Killer.ok_status, k);
}

abbrev IsCold : (ℕ → Bool) → ℕ → Type 0
IsCold k j = k j ≡ true

abbrev IsStuck : (ℕ → Bool) → ℕ → Type 0
IsStuck k j = j ≡ 6

abbrev IsStopped : (ℕ → Bool) → ℕ → Type 0
IsStopped = Stopped lib freezer IsCold IsStuck

after :
    {s s' : KillerStatus} {k k' : ℕ → Bool}
    → ◌≡◌ {A = Result (KillerStatus × (ℕ → Bool))} (ok (s, k)) (ok (s', k'))
    → k ≡ k'
after e = ap (λ (x : KillerStatus × (ℕ → Bool)). x.1) (ok-injective e)

answered :
    {s s' : KillerStatus} {k k' : ℕ → Bool}
    → ◌≡◌ {A = Result (KillerStatus × (ℕ → Bool))} (ok (s, k)) (ok (s', k'))
    → s ≡ s'
answered e = ap (λ (x : KillerStatus × (ℕ → Bool)). x.0) (ok-injective e)

==-self : (i : ℕ) → (i == i) ≡ true
==-self i = ground arith

freezes : (i : ℕ) (k k' : ℕ → Bool) → freezer.freeze i k ≡ ok (Killer.ok_status, k') → IsCold k' i
freezes i k k' e =
    let status = answered e in
    let able : (i == 6) ≡ false = ground arith in
    subst (λ (x : ℕ → Bool). x i ≡ true) (after e) (rw (==-self i, able) refl)

fails : (i : ℕ) (k k' : ℕ → Bool) → freezer.freeze i k ≡ ok (Killer.error_status, k') → IsStuck k' i
fails i k k' e = let status = answered e in ground arith

-- A freeze sets the process alone.
frozen_by :
    (i j : ℕ) (x : Bool)
    → (x ≡ true) ⊎ (i ≡ j)
    → ((if i == j then not (i == 6) else x) ≡ true) ⊎ (j ≡ 6)
frozen_by i j x cold = elim (Bool-cases (i == j)) [
  | inl e ↦ elim (Bool-cases (i == 6)) [
    | inl six ↦ inr (ground arith)
    | inr able ↦ inl (rw (e, able) refl)
  ]
  | inr d ↦ elim cold [ inl h ↦ inl (rw d h) | inr same ↦ absurd (ground arith) ]
]

freeze_keeps :
    (i j : ℕ) (k k' : ℕ → Bool) (s : KillerStatus)
    → IsStopped k j
    → freezer.freeze i k ≡ ok (s, k')
    → IsStopped k' j
freeze_keeps i j k k' s (inr six) e = inr six
freeze_keeps i j k k' s (inl cold) e =
    subst (λ x. IsStopped x j) (after e) (frozen_by i j (k j) (inl cold))

refreezes :
    (i j : ℕ) (k k₁ k₂ : ℕ → Bool) (s₁ s₂ : KillerStatus)
    → IsStopped k j
    → freezer.unfreeze i k ≡ ok (s₁, k₁)
    → freezer.freeze i k₁ ≡ ok (s₂, k₂)
    → is_protected s₂ ≡ false
    → IsStopped k₂ j
refreezes i j k k₁ k₂ s₁ s₂ (inr six) thaw froze fine = inr six
refreezes i j k k₁ k₂ s₁ s₂ (inl cold) thaw froze fine =
    subst (λ x. IsStopped x j) (after froze)
      (frozen_by i j (k₁ j) (elim (Bool-cases (i == j)) [
        | inl e ↦ inr (ground arith)
        | inr d ↦ inl (subst (λ (x : ℕ → Bool). x j ≡ true) (after thaw) (rw d cold))
      ]))

stays_dead :
    (i j : ℕ) (k k' : ℕ → Bool) (s : KillerStatus)
    → IsStopped k j
    → freezer.terminate i k ≡ ok (s, k')
    → IsStopped k' j
stays_dead i j k k' s cold e = subst (λ x. IsStopped x j) (after e) cold

abbrev cold_start : BrokerImpl ℕ SplitChar (ℕ → Bool)
cold_start = record {
  default_limits = fresh_broker.default_limits;
  default_argument = fresh_broker.default_argument;
  solutions = fresh_broker.solutions;
  killer = λ j. if 6 == j then false else if 3 == j then true else false;
  ahead = fresh_broker.ahead;
  traffic = [];
}

cold_constructed :
    new_broker freezer two_processes table (λ _. 1) continue (λ _. false) (env ∷ []) ≡ ok cold_start
unfolding new_broker construct setup_from setnonblock set_flags set_done freeze solution
    put_solution
cold_constructed = refl

serve-Frozen_example :
    All
      (λ (p : Process ℕ).
        IsStopped
          (serve casts
            (impl lib freezer)
            4
            (record {
              rest = script casts (begin 0 ∷ send 0 (codes "a") ∷ end 0 ∷ []);
              broken = false;
            })
            cold_start
            (record { sent = []; good = true })).state.killer
          p.id)
      two_processes.solutions
serve-Frozen_example =
    serve-Frozen lib freezer IsCold IsStuck freezes fails refreezes stays_dead freeze_keeps casts
      two_processes table (λ _. 1) continue (λ _. false) (env ∷ []) cold_start 4
      (record { rest = script casts (begin 0 ∷ send 0 (codes "a") ∷ end 0 ∷ []); broken = false })
      (record { sent = []; good = true }) cold_constructed
