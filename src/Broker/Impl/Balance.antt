-- ===== src/Broker/Impl/Balance.antt =====
-- What a solution's buffers hold of the bytes that went through its pipes, over the calls of a
-- session.
pub mod Buffers
pub mod Others
pub mod Session
use deprecated_yandex_contes.Base.{
  ℕ, true, false, not, ◌++◌, none, some, Bytes, get_elem?, ok, ◌>>=◌, >>=-eq-ok, assert-ok,
  ok-injective, Bool-cases, ◌≡◌, refl, sym, ap, subst, ◌∙◌, inl, inr, append_assoc,
}
use deprecated_yandex_contes.Tokenizer.{
  Status, fail, continue, accepted, TokenizerLibrary, instance_of,
}
use deprecated_yandex_contes.Killer.{KillerOps}
use deprecated_yandex_contes.Broker.Types.{ResourceLimits, BrokerResult, ResultStatus, ok_status}
use deprecated_yandex_contes.Broker.Communicate.{Environment, is_continue}
use deprecated_yandex_contes.Broker.Communicate.Balance.{BalancedAt}
use deprecated_yandex_contes.Broker.State.{
  Solution, EndEnv, BrokerImpl, is_null, put_solution, send, reset,
}
use deprecated_yandex_contes.Broker.Impl.{
  scan_outbuf, begin_with, talk, conclude, verdict, end_in, terminate, is_ok,
}
use deprecated_yandex_contes.Broker.Impl.Frame.{solution_at, put_solution_self, reset-ok}
use deprecated_yandex_contes.Broker.Impl.Flow.{
  flow_of, talk-calls, taken_of, delivered_of, moved_of-append,
}
use deprecated_yandex_contes.Broker.Impl.Balance.Buffers.{
  HeldBy-idle, Held, begun_by, scan_outbuf-Held, Open, Held-Open, transfer-Open,
}

module _ {I T K : Type 0} (id : ℕ) where
  -- Of what was sent to the solution `id`, its buffer holds what its pipe has not taken; of what was
  -- read from it, its buffers hold what is not paid.
  abbrev pub Books : Bytes → Bytes → BrokerImpl I T K → Type 0
  Books sent paid b =
      (sol : Solution I T) × (get_elem? b.solutions id ≡ some sol)
      × (sent ≡ delivered_of id b.traffic ++ sol.inbuf)
      × Held paid (taken_of id b.traffic) sol

  abbrev OpenBooks : Bytes → Bytes → BrokerImpl I T K → Type 0
  OpenBooks sent paid b =
      (sol : Solution I T) × (get_elem? b.solutions id ≡ some sol)
      × (sent ≡ delivered_of id b.traffic ++ sol.inbuf)
      × Open paid (taken_of id b.traffic) sol

  pub begin_with-Books :
      (lib : TokenizerLibrary T) (argument : Bytes) (limits : ResourceLimits) (sent paid : Bytes)
      (b : BrokerImpl I T K) {b' : BrokerImpl I T K}
      → Books sent paid b
      → begin_with lib id argument limits b ≡ ok b'
      → Books sent paid b'
  unfolding begin_with put_solution
  begin_with-Books lib argument limits sent paid b (sol, at, owed, held) e =
      let (free, f) = assert-ok (is_null sol.tokenizer) (rw (solution_at id b at) at e) in
      let (t, _, g) = >>=-eq-ok (instance_of lib argument) _ f in
      let (sol', p, h) = >>=-eq-ok (scan_outbuf lib t (begun_by t limits sol) sol.outbuf) _ g in
      let rest = HeldBy-idle paid (taken_of id b.traffic) _ _ _ sol.tokenizer free held in
      let (held', kept) =
        scan_outbuf-Held lib paid (taken_of id b.traffic) sol.outbuf t limits sol refl rest p in
      subst (Books sent paid) (ok-injective h) (
        sol',
        put_solution_self id b sol' at,
        owed ∙ ap (◌++◌ (delivered_of id b.traffic)) kept,
        held',
      )

  pub send-Books :
      (msg sent paid : Bytes) (b : BrokerImpl I T K) {b' : BrokerImpl I T K}
      → Books sent paid b
      → send id msg b ≡ ok b'
      → Books (sent ++ msg) paid b'
  unfolding send put_solution
  send-Books msg sent paid b (sol, at, owed, held) e =
      let (_, f) = assert-ok (not (is_null sol.tokenizer)) (rw (solution_at id b at) at e) in
      let new = record sol { inbuf = sol.inbuf ++ msg } in
      subst (Books (sent ++ msg) paid) (ok-injective f) (
        new,
        put_solution_self id b new at,
        ap (λ x. x ++ msg) owed ∙ append_assoc (delivered_of id b.traffic) sol.inbuf msg,
        held,
      )

  module _ (lib : TokenizerLibrary T) (killer : KillerOps I K) where
    talk-OpenBooks :
        (env : Environment) (sent paid : Bytes) (b : BrokerImpl I T K)
        {r : ResultStatus × BrokerImpl I T K}
        → OpenBooks sent paid b
        → talk lib killer id env b ≡ ok r
        → OpenBooks sent paid r.1
    unfolding put_solution
    talk-OpenBooks env sent paid b {r} (sol, at, owed, held) e =
        let (sol', s, c, k, p, done, _) = talk-calls lib killer id env b sol at e in
        let (held', kept) = transfer-Open lib env paid (taken_of id b.traffic) sol held p in
        let flow = flow_of id c in
        let before = delivered_of id b.traffic in
        subst (OpenBooks sent paid) (sym done) (
          sol',
          put_solution_self id b sol' at,
          owed
              ∙ ap (◌++◌ before) kept
              ∙ sym (append_assoc before flow.delivered sol'.inbuf)
              ∙ ap (λ x. x ++ sol'.inbuf) (sym (moved_of-append _ id flow b.traffic refl)),
          subst (λ x. Open paid x sol') (sym (moved_of-append _ id flow b.traffic refl)) held',
        )

    verdict-Held :
        (s : Status) (paid seen : Bytes) (sol : Solution I T)
        → BalancedAt s paid seen sol.result sol.outbuf
        → (verdict lib s sol).status ≡ ok_status
        → seen ≡ (paid ++ (verdict lib s sol).payload) ++ sol.outbuf
    unfolding verdict
    verdict-Held fail paid seen sol h good = cc
    verdict-Held continue paid seen sol h good = cc
    verdict-Held accepted paid seen sol h good = h ∙ sym (append_assoc paid sol.result sol.outbuf)

    -- An `end` that keeps what is sent, and returns a token.
    conclude-Books :
        (s : ResultStatus) (sent paid : Bytes) (b : BrokerImpl I T K)
        {r : BrokerResult × BrokerImpl I T K}
        → OpenBooks sent paid b
        → conclude lib killer id false s b ≡ ok r
        → r.0.status ≡ ok_status
        → Books sent (paid ++ r.0.payload) r.1
    unfolding conclude put_solution
    conclude-Books s sent paid b {r} (sol, at, owed, (_, _, held)) e good =
        let f = rw (solution_at id b at) at e in
        let b' = put_solution id sol b in
        let at' = put_solution_self id b sol at in
        elim (Bool-cases (is_ok s)) [
          | inl c ↦
              let (b'', p, h) = >>=-eq-ok (reset id b') _ (rw c at f) in
              let closed = record sol { tokenizer = none } in
              let result = verdict lib sol.tokenizer_status sol in
              let last = put_solution id closed b' in
              let same : ok (result, last) ≡ ok r =
                ap (λ x. ok (result, x)) (sym (reset-ok id b' at' p)) ∙ h in
              subst
                (λ (x : BrokerResult × BrokerImpl I T K).
                  x.0.status ≡ ok_status → Books sent (paid ++ x.0.payload) x.1)
                (ok-injective same)
                (λ fine. (
                  closed,
                  put_solution_self id b' closed at',
                  owed,
                  verdict-Held sol.tokenizer_status paid (taken_of id b.traffic) sol held fine,
                ))
                good
          | inr d ↦
              let (b₁, _, h) = >>=-eq-ok (terminate killer id b') _ (rw d at f) in
              let (b₂, _, k) = >>=-eq-ok (reset id b₁) _ h in
              let bad : s ≡ ok_status = ap (λ x. x.0.status) (ok-injective k) ∙ good in
              let clash : true ≡ false = ap is_ok (sym bad) ∙ d in cc
        ]

    pub end_in-Books :
        (env : EndEnv) (sent paid : Bytes) (b : BrokerImpl I T K)
        {r : BrokerResult × BrokerImpl I T K}
        → Books sent paid b
        → end_in lib killer env id false b ≡ ok r
        → r.0.status ≡ ok_status
        → Books sent (paid ++ r.0.payload) r.1
    unfolding end_in
    end_in-Books env sent paid b (sol, at, owed, held) e good =
        let (live, f) = assert-ok (not (is_null sol.tokenizer)) (rw (solution_at id b at) at e) in
        let books : OpenBooks sent paid b =
          (sol, at, owed, Held-Open paid (taken_of id b.traffic) sol live held) in
        elim (Bool-cases (is_continue sol.tokenizer_status)) [
          | inl c ↦
              let ((s, b'), p, h) =
                >>=-eq-ok (talk lib killer id env.environment b) _ (rw c at f) in
              conclude-Books s sent paid b' (talk-OpenBooks env.environment sent paid b books p) h
                good
          | inr d ↦ conclude-Books env.uninitialised sent paid b books (rw d at f) good
        ]
