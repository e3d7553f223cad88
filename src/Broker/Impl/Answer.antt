-- ===== src/Broker/Impl/Answer.antt =====
-- The answer of `end`: which token it returns, and what it keeps of the output.
use deprecated_yandex_contes.Base.{
  ℕ, ◌≤◌, Bool, true, false, not, [], ◌++◌, none, some, Bytes, length, take, drop, get_elem?,
  if◌then◌else◌, ok, >>=-eq-ok, assert-ok, ok-injective, Bool-cases, ◌≡◌, refl, sym, ap, subst, ◌∙◌,
  inl, inr, append-nil,
}
use deprecated_yandex_contes.Tokenizer.{
  Status, fail, continue, accepted, TokenizerLibrary, tokenize,
}
use deprecated_yandex_contes.Tokenizer.Laws.{IsTokenizer}
use deprecated_yandex_contes.Killer.{KillerOps}
use deprecated_yandex_contes.Broker.Types.{BrokerResult, ResultStatus, ok_status}
use deprecated_yandex_contes.Broker.Communicate.{Environment, is_continue}
use deprecated_yandex_contes.Broker.Communicate.Token.{ScannedAt}
use deprecated_yandex_contes.Broker.State.{
  Solution, EndEnv, BrokerImpl, comm_of, is_null, solution, put_solution, reset,
}
use deprecated_yandex_contes.Broker.Impl.{talk, conclude, verdict, end_in, terminate, is_ok}
use deprecated_yandex_contes.Broker.Impl.Frame.{solution_at, put_solution_self, reset-ok}
use deprecated_yandex_contes.Broker.Impl.Flow.{taken_of, flow_of, talk-calls, moved_of-append}
use deprecated_yandex_contes.Broker.Impl.Iteration.{Iterating, transfer-Iterating}

module _ {I T K : Type 0} (lib : TokenizerLibrary T) (Ready : T → Type 0) (t₀ : T) where
  -- The solution `id` is in an iteration that began with `t₀`, and `seen` is its output since then.
  abbrev pub IteratingAt : ℕ → Bytes → BrokerImpl I T K → Type 0
  IteratingAt id seen b =
      (sol : Solution I T) × (get_elem? b.solutions id ≡ some sol) × Iterating lib Ready t₀ seen sol

  module _ (killer : KillerOps I K) (law : IsTokenizer lib Ready) where
    -- The broker `b'` has read some more bytes of the solution than `b`.
    abbrev ReadOn : ℕ → Bytes → BrokerImpl I T K → BrokerImpl I T K → Type 0
    ReadOn id seen b b' =
        (bytes : Bytes) × IteratingAt id (seen ++ bytes) b'
        × (taken_of id b'.traffic ≡ taken_of id b.traffic ++ bytes)

    talk-ReadOn :
        (id : ℕ) (env : Environment) (b : BrokerImpl I T K) (seen : Bytes)
        {r : ResultStatus × BrokerImpl I T K}
        → IteratingAt id seen b
        → talk lib killer id env b ≡ ok r
        → ReadOn id seen b r.1
    unfolding put_solution
    talk-ReadOn id env b seen {r} (sol, at, it) e =
        let (sol', s, c, k, p, done, _) = talk-calls lib killer id env b sol at e in
        subst (ReadOn id seen b) (sym done) (
          c.reader.taken,
          (
            sol',
            put_solution_self id b sol' at,
            transfer-Iterating lib Ready t₀ law env sol seen it p,
          ),
          moved_of-append _ id (flow_of id c) b.traffic refl,
        )

    -- `end` returned a token of the output `whole`, and the broker keeps what stands behind it.
    abbrev pub Tokenized : ℕ → Bytes → BrokerResult → BrokerImpl I T K → Type 0
    Tokenized id whole result b =
        (n : ℕ) × (t : T) × (sol : Solution I T) × (tokenize lib t₀ whole
          ≡ ok (t, record { status = accepted; accepted = n }))
        × (n ≤ length whole)
        × (result.payload ≡ take n whole)
        × (get_elem? b.solutions id ≡ some sol)
        × (sol.outbuf ≡ drop n whole)
        × (sol.tokenizer ≡ none)

    verdict-Tokenized :
        (s : Status) (whole : Bytes) (sol : Solution I T)
        → (t : T) × (sol.tokenizer ≡ some t) × ScannedAt lib Ready t₀ s whole (comm_of t sol).reader
        → (verdict lib s sol).status ≡ ok_status
        → (n : ℕ) × (t : T) × (tokenize lib t₀ whole
            ≡ ok (t, record { status = accepted; accepted = n }))
          × (n ≤ length whole)
          × ((verdict lib s sol).payload ≡ take n whole)
          × (sol.outbuf ≡ drop n whole)
    unfolding verdict
    verdict-Tokenized fail whole sol it h = cc
    verdict-Tokenized continue whole sol it h = cc
    verdict-Tokenized accepted whole sol (t, _, (n, p, le, q, o)) h = (n, t, p, le, q, o)

    conclude-Tokenized :
        (id : ℕ) (discard : Bool) (s : ResultStatus) (b : BrokerImpl I T K) (whole : Bytes)
        {r : BrokerResult × BrokerImpl I T K}
        → IteratingAt id whole b
        → r.0.status ≡ ok_status
        → conclude lib killer id discard s b ≡ ok r
        → Tokenized id whole r.0 r.1 × (r.1.traffic ≡ b.traffic)
    unfolding conclude put_solution
    conclude-Tokenized id discard s b whole {r} (sol, at, it) good e =
        let f = rw (solution_at id b at) at e in
        let sol' = record sol { inbuf = if discard then [] else sol.inbuf } in
        let b' = put_solution id sol' b in
        let at' = put_solution_self id b sol' at in
        elim (Bool-cases (is_ok s)) [
          | inl c ↦
              let g = rw c at f in
              let (b'', p, h) = >>=-eq-ok (reset id b') _ g in
              let same : verdict lib sol.tokenizer_status sol' ≡ r.0 =
                ap (λ x. x.0) (ok-injective h) in
              let behind : b'' ≡ r.1 = ap (λ x. x.1) (ok-injective h) in
              let (n, t, run, le, payload, rest) =
                verdict-Tokenized sol.tokenizer_status whole sol' it
                  (ap (λ (x : BrokerResult). x.status) same ∙ good) in
              let cleared = record sol' { tokenizer = none } in
              let last = sym behind ∙ reset-ok id b' at' p in
              (
                (
                  n,
                  t,
                  cleared,
                  run,
                  le,
                  ap (λ (x : BrokerResult). x.payload) (sym same) ∙ payload,
                  ap (λ (x : BrokerImpl I T K). get_elem? x.solutions id) last
                      ∙ put_solution_self id b' cleared at',
                  rest,
                  refl,
                ),
                ap (λ (x : BrokerImpl I T K). x.traffic) last,
              )
          | inr d ↦
              let g = rw d at f in
              let (b₁, _, h) = >>=-eq-ok (terminate killer id b') _ g in
              let (b₂, _, k) = >>=-eq-ok (reset id b₁) _ h in
              let bad : s ≡ ok_status = ap (λ x. x.0.status) (ok-injective k) ∙ good in
              let clash : true ≡ false = ap is_ok (sym bad) ∙ d in cc
        ]

    pub end_in-Tokenized :
        (env : EndEnv) (id : ℕ) (discard : Bool) (b : BrokerImpl I T K) (seen : Bytes)
        {r : BrokerResult × BrokerImpl I T K}
        → IteratingAt id seen b
        → r.0.status ≡ ok_status
        → end_in lib killer env id discard b ≡ ok r
        → (bytes : Bytes) × Tokenized id (seen ++ bytes) r.0 r.1
          × (taken_of id r.1.traffic ≡ taken_of id b.traffic ++ bytes)
    unfolding end_in
    end_in-Tokenized env id discard b seen {r} it good e =
        let (sol, _, f) = >>=-eq-ok (solution id b) _ e in
        let (_, g) = assert-ok (not (is_null sol.tokenizer)) f in
        elim (Bool-cases (is_continue sol.tokenizer_status)) [
          | inl c ↦
              let talked = rw c at g in
              let ((s, b'), p, h) = >>=-eq-ok (talk lib killer id env.environment b) _ talked in
              let (bytes, it', moved) = talk-ReadOn id env.environment b seen it p in
              let (token, same) = conclude-Tokenized id discard s b' (seen ++ bytes) it' good h in
              (bytes, token, ap (taken_of id) same ∙ moved)
          | inr d ↦
              let h = rw d at g in
              let (token, same) =
                conclude-Tokenized id discard env.uninitialised b seen it good h in
              (
                [],
                rw append-nil token,
                ap (taken_of id) same ∙ sym (append-nil (taken_of id b.traffic)),
              )
        ]
