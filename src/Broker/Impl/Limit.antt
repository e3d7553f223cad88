-- ===== src/Broker/Impl/Limit.antt =====
-- What `communicate` of src/lib/BrokerImplCommunicate.cpp has met when it returns.
use deprecated_yandex_contes.Base.{
  true, some, ok, >>=-eq-ok, ok-injective, ◌≡◌, ◌⊎◌, ap, subst, ◌∙◌, inl, inr, arith, ℤ,
}
use deprecated_yandex_contes.Tokenizer.{continue, TokenizerLibrary}
use deprecated_yandex_contes.Broker.Types.{ResultStatus, ok_status, real_time_limit_exceeded}
use deprecated_yandex_contes.Broker.Communicate.{
  Environment, Comm, Ends, is_continue, comm_loop, communicate, until_point,
}
use deprecated_yandex_contes.Broker.Communicate.Token.{is_continue-eq}
use deprecated_yandex_contes.Broker.Communicate.Deadline.{comm_loop-late}
use deprecated_yandex_contes.Broker.Communicate.Reports.{OverdueIn, ClosesIn, comm_loop-Reports}
use deprecated_yandex_contes.Broker.State.{Solution, comm_of, solution_of}
use deprecated_yandex_contes.Broker.Impl.{communicate_with, transfer}

-- The time of a transfer with the limit in milliseconds is over.
abbrev pub TimeIsOver : Environment → ℤ → Type 0
TimeIsOver env limit = OverdueIn (until_point env.start limit) env.rounds

module _ {I T : Type 0} (lib : TokenizerLibrary T) where
  -- The status that a transfer returned, and the solution behind it. If the tokenizer still waits,
  -- the output has ended or the time is over.
  abbrev pub Fits : Environment → Ends → ℤ → ResultStatus → Solution I T → Type 0
  Fits env ends limit s sol =
      ((s ≡ ok_status) × (is_continue sol.tokenizer_status ≡ true → ClosesIn ends env.rounds))
      ⊎ ((s ≡ real_time_limit_exceeded) × (sol.tokenizer_status ≡ continue) × TimeIsOver env limit)

  communicate-Fits :
      (env : Environment) (limit : ℤ) (ends : Ends) (sol : Solution I T) (t : T)
      {r : Comm T × ResultStatus}
      → communicate lib ends limit env (comm_of t sol) ≡ ok r
      → Fits env ends limit r.1 (solution_of sol r.0)
  unfolding communicate
  communicate-Fits env limit ends sol t {r} e =
      let until = until_point env.start limit in
      let run : comm_loop lib ends until (comm_of t sol) env.rounds ≡ ok (r.0, r.1) =
        ground arith in
      elim (comm_loop-Reports lib ends until env.rounds (comm_of t sol) r.0 r.1 run) [
        | inl fine ↦ inl fine
        | inr (late, over) ↦
            let slow : comm_loop lib ends until (comm_of t sol) env.rounds
                ≡ ok (r.0, real_time_limit_exceeded) =
              run ∙ ap (λ x. ok (r.0, x)) late in
            inr (
              late,
              is_continue-eq r.0.reader.status
                  (comm_loop-late lib ends until env.rounds (comm_of t sol) r.0 slow),
              over,
            )
      ]

  pub transfer-Fits :
      (env : Environment) (sol : Solution I T) (t : T) {r : Solution I T × ResultStatus × Comm T}
      → sol.tokenizer ≡ some t
      → transfer lib env sol ≡ ok r
      → Fits env sol.process.ends sol.resource_limits.real_time_limit r.1 r.0
  unfolding transfer communicate_with
  transfer-Fits env sol t tok e =
      let limit = sol.resource_limits.real_time_limit in
      let known = rw tok at e in
      let ((c, s), p, f) =
        >>=-eq-ok (communicate lib sol.process.ends limit env (comm_of t sol)) _ known in
      subst (λ (x : Solution I T × ResultStatus × Comm T). Fits env sol.process.ends limit x.1 x.0)
        (ok-injective f) (communicate-Fits env limit sol.process.ends sol t p)
