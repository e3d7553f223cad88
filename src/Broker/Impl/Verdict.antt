-- ===== src/Broker/Impl/Verdict.antt =====
-- What each status of `end` says of the output of the solution.
use deprecated_yandex_contes.Base.{
  ℕ, Bool, arith, not, List, [], ◌++◌, none, some, Bytes, get_elem?, if◌then◌else◌, ok, >>=-eq-ok,
  assert-ok, ok-injective, Bool-cases, ◌≡◌, refl, sym, ap, subst, ◌∙◌, inl, inr, append-nil,
}
use deprecated_yandex_contes.Tokenizer.{TokenizerLibrary, instance_of}
use deprecated_yandex_contes.Tokenizer.Laws.{IsTokenizer}
use deprecated_yandex_contes.Killer.{KillerOps}
use deprecated_yandex_contes.Broker.Types.{BrokerResult, ResourceLimits, ResultStatus, ok_status}
use deprecated_yandex_contes.Broker.Communicate.{is_continue}
use deprecated_yandex_contes.Broker.Communicate.Token.{ScannedAt}
use deprecated_yandex_contes.Broker.State.{
  Solution, EndEnv, BrokerImpl, comm_of, is_null, put_solution, reset,
}
use deprecated_yandex_contes.Broker.Impl.{talk, conclude, verdict, end_in, terminate, begin_with}
use deprecated_yandex_contes.Broker.Impl.Frame.{
  solution_at, put_solution_self, reset-ok, terminate-ok,
}
use deprecated_yandex_contes.Broker.Impl.Flow.{taken_of, flow_of, talk-calls, moved_of-append}
use deprecated_yandex_contes.Broker.Impl.Balance.Others.{conclude-traffic}
use deprecated_yandex_contes.Broker.Impl.Settings.{begin_with-RunsAt, sends-RunsAt}
use deprecated_yandex_contes.Broker.Impl.Limit.{Fits, transfer-Fits}
use deprecated_yandex_contes.Broker.Impl.Iteration.{Iterating, transfer-Iterating}
use deprecated_yandex_contes.Broker.Impl.Turn.{
  iteration, send_all, begin_with-IteratingAt, sends-IteratingAt,
}
use deprecated_yandex_contes.Broker.Impl.Reason.{Setting, setting_of, Reason, verdict-Reason}

module _ {I T K : Type 0} (lib : TokenizerLibrary T) (Ready : T → Type 0) (t₀ : T) where
  -- The result of an `end` has its reason in the output, and the solution has no tokenizer any more.
  abbrev pub Explained : Setting → ℕ → Bytes → BrokerResult → BrokerImpl I T K → Type 0
  Explained at id whole result b =
      (sol : Solution I T) × (get_elem? b.solutions id ≡ some sol)
      × (sol.tokenizer ≡ none)
      × Reason lib Ready t₀ at result.status whole result.payload sol.outbuf

  module _ (killer : KillerOps I K) where
    conclude-Explained :
        (here : Setting) (id : ℕ) (discard : Bool) (s : ResultStatus) (b : BrokerImpl I T K)
        (whole : Bytes) (sol : Solution I T) {r : BrokerResult × BrokerImpl I T K}
        → get_elem? b.solutions id ≡ some sol
        → Iterating lib Ready t₀ whole sol
        → Fits lib here.env here.ends here.limit s sol
        → conclude lib killer id discard s b ≡ ok r
        → Explained here id whole r.0 r.1
    unfolding conclude put_solution
    conclude-Explained here id discard s b whole sol {r} at (t, tok, sc) (inl (fine, closed)) e =
        let sol' = record sol { inbuf = if discard then [] else sol.inbuf } in
        let b' = put_solution id sol' b in
        let at' = put_solution_self id b sol' at in
        let f = rw (solution_at id b at, fine) at e in
        let (b'', p, h) = >>=-eq-ok (reset id b') _ f in
        let released = record sol' { tokenizer = none } in
        let last = reset-ok id b' at' p in
        subst (λ (x : BrokerResult × BrokerImpl I T K). Explained here id whole x.0 x.1)
          (ap (λ x. (verdict lib sol.tokenizer_status sol', x)) (sym last) ∙ ok-injective h)
          (
            released,
            put_solution_self id b' released at',
            refl,
            verdict-Reason lib Ready t₀ here sol.tokenizer_status whole sol' t tok sc closed,
          )
    conclude-Explained here id discard s b whole sol {r} at (t, tok, sc) (inr (late, waits, over))
          e =
        let sol' = record sol { inbuf = if discard then [] else sol.inbuf } in
        let b' = put_solution id sol' b in
        let at' = put_solution_self id b sol' at in
        let f = rw (solution_at id b at, late) at e in
        let (b₁, p, h) = >>=-eq-ok (terminate killer id b') _ f in
        let (b₂, q, i) = >>=-eq-ok (reset id b₁) _ h in
        let released = record sol' { tokenizer = none; inbuf = []; outbuf = [] } in
        let (k, same) = terminate-ok killer id b' at' p in
        let at₁ : get_elem? b₁.solutions id ≡ some released =
          ap (λ (x : BrokerImpl I T K). get_elem? x.solutions id) same
          ∙ put_solution_self id (record b' { killer = k }) released at' in
        let last = reset-ok id b₁ at₁ q in
        let (ready, _, _, go) =
          subst (λ x. ScannedAt lib Ready t₀ x whole (comm_of t sol).reader) waits sc in
        subst (λ (x : BrokerResult × BrokerImpl I T K). Explained here id whole x.0 x.1)
          (ok-injective i)
          (
            released,
            ap (λ (x : BrokerImpl I T K). get_elem? x.solutions id) last
                ∙ put_solution_self id b₁ released at₁,
            refl,
            subst (λ x. Reason lib Ready t₀ here x whole [] []) (sym late)
                ((t, ready, go), over, refl, refl),
          )

    module _ (law : IsTokenizer lib Ready) where
      end_in-Explained :
          (env : EndEnv) (id : ℕ) (discard : Bool) (b : BrokerImpl I T K) (seen : Bytes)
          (sol : Solution I T) {r : BrokerResult × BrokerImpl I T K}
          → env.uninitialised ≡ ok_status
          → get_elem? b.solutions id ≡ some sol
          → Iterating lib Ready t₀ seen sol
          → end_in lib killer env id discard b ≡ ok r
          → (bytes : Bytes) × Explained
              (setting_of env.environment sol.process sol.resource_limits)
              id
              (seen ++ bytes)
              r.0
              r.1
            × (taken_of id r.1.traffic ≡ taken_of id b.traffic ++ bytes)
      unfolding end_in put_solution
      end_in-Explained env id discard b seen sol {r} lucky at it e =
          let here = setting_of env.environment sol.process sol.resource_limits in
          let (_, f) = assert-ok (not (is_null sol.tokenizer)) (rw (solution_at id b at) at e) in
          elim (Bool-cases (is_continue sol.tokenizer_status)) [
            | inl c ↦
                let ((s, b'), p, h) =
                  >>=-eq-ok (talk lib killer id env.environment b) _ (rw c at f) in
                let (sol', s', comm, k, run, done, same) =
                  talk-calls lib killer id env.environment b sol at p in
                let at' : get_elem? b'.solutions id ≡ some sol' =
                  ap (λ (x : BrokerImpl I T K). get_elem? x.solutions id) done
                  ∙ put_solution_self id b sol' at in
                let on = transfer-Iterating lib Ready t₀ law env.environment sol seen it run in
                let fits =
                  subst (λ x. Fits lib here.env here.ends here.limit x sol') (sym same)
                    (transfer-Fits lib env.environment sol it.0 it.1 run) in
                (
                  comm.reader.taken,
                  conclude-Explained here id discard s b' (seen ++ comm.reader.taken) sol' at' on
                      fits h,
                  ap (taken_of id) (conclude-traffic killer lib id discard s b' h)
                      ∙ ap (λ (x : BrokerImpl I T K). taken_of id x.traffic) done
                      ∙ moved_of-append _ id (flow_of id comm) b.traffic refl,
                )
            | inr d ↦
                let h = rw d at f in
                (
                  [],
                  rw append-nil (
                      conclude-Explained here id discard env.uninitialised b seen sol at it
                        (inl (lucky, λ go. absurd (ground (arith, go, d)))) h),
                  ap (taken_of id) (conclude-traffic killer lib id discard env.uninitialised b h)
                      ∙ sym (append-nil (taken_of id b.traffic)),
                )
          ]

      -- The status that an iteration of a solution (begin, any messages, end) returns has its
      -- reason in the output left from before and the bytes that end has read, taken as one text.
      -- Status ok: a new tokenizer accepts a token of it, which is the payload, and the rest is
      -- kept. Tokenizer error: it fails on it, and the payload is its message. End of the output or
      -- real time limit: it has no answer and goes on behind it; the payload is empty and no output
      -- is kept; and epoll has reported the read end of the pipe of the solution with nothing to
      -- read, or a reading of the clock was not before the time limit, the sum of the first one and
      -- the real time limit given to begin, as 64 bits of nanoseconds hold it. No other status is
      -- returned, and the solution has no tokenizer any more. The tokenizer library keeps its
      -- contract, the new tokenizer is ready, and the uninitialised status of end is ok.
      pub iteration-Explained :
          (id : ℕ) (argument : Bytes) (limits : ResourceLimits) (msgs : List Bytes) (env : EndEnv)
          (discard : Bool) (b : BrokerImpl I T K) {sol : Solution I T}
          {r : BrokerResult × BrokerImpl I T K}
          → get_elem? b.solutions id ≡ some sol
          → instance_of lib argument ≡ ok t₀
          → Ready t₀
          → env.uninitialised ≡ ok_status
          → iteration lib killer id argument limits msgs env discard b ≡ ok r
          → (bytes : Bytes) × Explained
              (setting_of env.environment sol.process limits)
              id
              (sol.outbuf ++ bytes)
              r.0
              r.1
            × (taken_of id r.1.traffic ≡ taken_of id b.traffic ++ bytes)
      unfolding iteration
      iteration-Explained id argument limits msgs env discard b {sol} {r} at made ready lucky e =
          let (b₁, p₁, f₁) = >>=-eq-ok (begin_with lib id argument limits b) _ e in
          let (it₁, same₁) =
            begin_with-IteratingAt lib Ready t₀ killer law id argument limits b at made ready p₁ in
          let (b₂, p₂, f₂) = >>=-eq-ok (send_all id msgs b₁) _ f₁ in
          let ((last, there, it₂), same₂) =
            sends-IteratingAt lib Ready t₀ killer law id msgs b₁ sol.outbuf it₁ p₂ in
          let (last', there', (process, limited)) =
            sends-RunsAt id msgs b₁ (begin_with-RunsAt lib id argument limits b at p₁) p₂ in
          let who : last' ≡ last = cc in
          let here : setting_of env.environment last.process last.resource_limits
              ≡ setting_of env.environment sol.process limits =
            ap (λ (x : Solution I T). setting_of env.environment x.process x.resource_limits)
              (sym who)
            ∙ ap (λ x. setting_of env.environment x last'.resource_limits) process
            ∙ ap (setting_of env.environment sol.process) limited in
          let (bytes, why, moved) =
            end_in-Explained env id discard b₂ sol.outbuf last lucky there it₂ f₂ in
          (
            bytes,
            subst (λ x. Explained x id (sol.outbuf ++ bytes) r.0 r.1) here why,
            moved ∙ ap (λ ts. taken_of id ts ++ bytes) (same₂ ∙ same₁),
          )
