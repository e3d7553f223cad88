-- ===== src/Broker/Impl/Iteration.antt =====
-- An iteration, from `begin` to `end`: the token that `end` returns is the one that the tokenizer
-- finds in the solution's output as a whole, and what stands behind it is kept for the next one.
use deprecated_yandex_contes.Base.{
  ◌+◌, true, [], ◌∷◌, ◌++◌, some, Bytes, take, Result, ok, err, ◌>>=◌, >>=-eq-ok, ok-injective, ◌≡◌,
  refl, sym, ap, subst, ◌∙◌, arith, ℤ,
}
use deprecated_yandex_contes.Tokenizer.{
  Status, fail, continue, accepted, TokenizerResult, TokenizerLibrary, tokenize,
}
use deprecated_yandex_contes.Tokenizer.Laws.{IsTokenizer, shift}
use deprecated_yandex_contes.Broker.Types.{ResultStatus}
use deprecated_yandex_contes.Broker.Communicate.{
  Environment, Comm, Reader, communicate, comm_loop, Ends, until_point,
}
use deprecated_yandex_contes.Broker.Communicate.Token.{
  ScannedAt, Scanned, ReadsOn, comm_loop-ReadsOn,
}
use deprecated_yandex_contes.Broker.State.{Solution, comm_of, solution_of, leftover}
use deprecated_yandex_contes.Broker.Impl.{scan_outbuf, transfer, communicate_with}

shift_zero :
    {T : Type 0} (m : Result (T × TokenizerResult))
    → m ≡ (m >>= λ (q : T × TokenizerResult). ok (shift 0 q))
shift_zero (ok (t, r)) =
    let e : r.accepted ≡ 0 + r.accepted = omega arith in λ i. ok (t, record r { accepted = e i })
shift_zero (err e) = refl

module _ {T : Type 0} (lib : TokenizerLibrary T) (Ready : T → Type 0) (t₀ : T) where
  communicate-ReadsOn :
      (law : IsTokenizer lib Ready) (ends : Ends) (limit : ℤ) (env : Environment) (c : Comm T)
      (seen : Bytes) {r : Comm T × ResultStatus}
      → Scanned lib Ready t₀ seen c.reader
      → communicate lib ends limit env c ≡ ok r
      → ReadsOn lib Ready t₀ law seen c.reader r.0.reader
  unfolding communicate
  communicate-ReadsOn law ends limit env c seen {r} sc e =
      let run : comm_loop lib ends (until_point env.start limit) c env.rounds ≡ ok r =
        ground arith in
      comm_loop-ReadsOn lib Ready t₀ law ends _ env.rounds c seen sc run

  Scanned_fields :
      (s : Status) (seen : Bytes) (rd : Reader T)
      → ScannedAt lib Ready t₀ s seen rd
      → ScannedAt lib Ready t₀ s seen (record rd { watched = true; taken = [] })
  Scanned_fields fail seen rd h = h
  Scanned_fields continue seen rd h = h
  Scanned_fields accepted seen rd h = h

module _ {I T : Type 0} (lib : TokenizerLibrary T) (Ready : T → Type 0) (t₀ : T) where
  -- The solution is in an iteration that began with the tokenizer `t₀`, and `seen` is its output
  -- since then, with what was left from before.
  abbrev pub Iterating : Bytes → Solution I T → Type 0
  Iterating seen sol =
      (t : T) × (sol.tokenizer ≡ some t) × Scanned lib Ready t₀ seen (comm_of t sol).reader

  module _ (law : IsTokenizer lib Ready) where
    leftover-Iterating :
        (s : Status) (sol : Solution I T) (t : T) (r : TokenizerResult)
        → r.status ≡ s
        → Ready t₀
        → sol.result ≡ []
        → tokenize lib t₀ sol.outbuf ≡ ok (t, r)
        → Iterating sol.outbuf
            (leftover (record sol { tokenizer = some t; tokenizer_status = s }) r s)
    unfolding leftover
    leftover-Iterating fail sol t r a ready res p = (t, refl, (r.accepted, p ∙ rw a))
    leftover-Iterating continue sol t r a ready res p = (
      t,
      refl,
      (
        law.stays_ready t₀ sol.outbuf ready p a,
        ap (λ x. x ++ sol.outbuf) res,
        refl,
        λ ys. law.resumes t₀ sol.outbuf ys ready p a,
      ),
    )
    leftover-Iterating accepted sol t r a ready res p = (
      t,
      refl,
      (
        r.accepted,
        p ∙ rw a,
        law.bounded t₀ sol.outbuf ready p a,
        ap (λ x. x ++ take r.accepted sol.outbuf) res,
        refl,
      ),
    )

    pub scan_outbuf-Iterating :
        (out : Bytes) (sol : Solution I T) {sol' : Solution I T}
        → sol.outbuf ≡ out
        → Ready t₀
        → sol.tokenizer ≡ some t₀
        → sol.tokenizer_status ≡ continue
        → sol.result ≡ []
        → scan_outbuf lib t₀ sol out ≡ ok sol'
        → Iterating out sol'
    unfolding scan_outbuf
    scan_outbuf-Iterating [] sol empty ready tok waits res e =
        subst (Iterating []) (ok-injective e)
          (t₀, tok, rw waits (ready, res, empty, λ ys. shift_zero (tokenize lib t₀ ys)))
    scan_outbuf-Iterating (o ∷ os) sol {sol'} same ready tok waits res e =
        let ((t, r), p, f) = >>=-eq-ok (tokenize lib t₀ sol.outbuf) _ e in
        subst (λ x. Iterating x sol') same
          (subst (Iterating sol.outbuf) (ok-injective f)
            (leftover-Iterating r.status sol t r refl ready res p))

    solution_of-Iterating :
        (sol : Solution I T) (c : Comm T) (seen : Bytes)
        → (bytes : Bytes) × Scanned lib Ready t₀ (seen ++ bytes) c.reader × (c.reader.taken ≡ bytes)
        → Iterating (seen ++ c.reader.taken) (solution_of sol c)
    solution_of-Iterating sol c seen (bytes, sc, taken) = (
      c.reader.tokenizer,
      refl,
      Scanned_fields lib Ready t₀ c.reader.status (seen ++ c.reader.taken) c.reader
          (subst (λ x. Scanned lib Ready t₀ (seen ++ x) c.reader) (sym taken) sc),
    )

    -- What the solution has read meanwhile is the new part of its output.
    pub transfer-Iterating :
        (env : Environment) (sol : Solution I T) (seen : Bytes)
        {r : Solution I T × ResultStatus × Comm T}
        → Iterating seen sol
        → transfer lib env sol ≡ ok r
        → Iterating (seen ++ r.2.reader.taken) r.0
    unfolding transfer communicate_with
    transfer-Iterating env sol seen {r} (t, some_t, sc) e =
        let known = rw some_t at e in
        let ((c, s), p, f) =
          >>=-eq-ok
            (communicate lib sol.process.ends sol.resource_limits.real_time_limit env
              (comm_of t sol))
            _ known in
        let on =
          communicate-ReadsOn lib Ready t₀ law sol.process.ends _ env (comm_of t sol) seen sc p in
        subst
          (λ (x : Solution I T × ResultStatus × Comm T). Iterating (seen ++ x.2.reader.taken) x.0)
          (ok-injective f) (solution_of-Iterating sol c seen on)
