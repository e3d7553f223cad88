-- ===== src/Broker/Impl/Balance/Buffers.antt =====
-- What the buffers of src/lib/BrokerImpl.cpp hold of the bytes that went through the pipes of one
-- solution.
use deprecated_yandex_contes.Base.{
  true, Option-cases, false, not, [], ◌∷◌, ◌++◌, Option, none, some, Bytes, take-append-drop, ok,
  >>=-eq-ok, ok-injective, ◌≡◌, refl, sym, ap, subst, ◌∙◌, inl, inr, arith, append-nil, ℤ,
}
use deprecated_yandex_contes.Tokenizer.{
  Status, fail, continue, accepted, TokenizerResult, TokenizerLibrary, tokenize,
}
use deprecated_yandex_contes.Broker.Types.{ResourceLimits, ResultStatus}
use deprecated_yandex_contes.Broker.Communicate.{
  Environment, Comm, Ends, communicate, comm_loop, until_point,
}
use deprecated_yandex_contes.Broker.Communicate.Balance.{BalancedAt, comm_loop-Balanced}
use deprecated_yandex_contes.Broker.Communicate.Delivery.{comm_loop-stream_of}
use deprecated_yandex_contes.Broker.State.{Solution, comm_of, solution_of, is_null, leftover}
use deprecated_yandex_contes.Broker.Impl.{scan_outbuf, communicate_with, transfer}

-- Of the output `seen`, the bytes `paid` are gone, and the solution holds the others.
abbrev pub HeldBy : {T : Type 0} → Option T → Status → Bytes → Bytes → Bytes → Bytes → Type 0
HeldBy none s paid seen result outbuf = seen ≡ paid ++ outbuf
HeldBy (some _) s paid seen result outbuf = BalancedAt s paid seen result outbuf

pub HeldBy-idle :
    {T : Type 0} (paid seen result outbuf : Bytes) (s : Status) (t : Option T)
    → is_null t ≡ true
    → HeldBy t s paid seen result outbuf
    → seen ≡ paid ++ outbuf
HeldBy-idle paid seen result outbuf s none h held = held
HeldBy-idle paid seen result outbuf s (some t) h held = cc

module _ {I T : Type 0} where
  abbrev pub Held : Bytes → Bytes → Solution I T → Type 0
  Held paid seen sol = HeldBy sol.tokenizer sol.tokenizer_status paid seen sol.result sol.outbuf

  leftover-Held :
      (paid seen : Bytes) (t : T) (sol : Solution I T) (r : TokenizerResult) (s : Status)
      → seen ≡ paid ++ sol.outbuf
      → sol.result ≡ []
      → let sol' = leftover (record sol { tokenizer = some t; tokenizer_status = s }) r s in
        Held paid seen sol' × (sol.inbuf ≡ sol'.inbuf)
  unfolding leftover
  leftover-Held paid seen t sol r fail h empty = (tt, refl)
  leftover-Held paid seen t sol r continue h empty = ((refl, rw empty h), refl)
  leftover-Held paid seen t sol r accepted h empty =
      (rw (empty, take-append-drop r.accepted sol.outbuf) h, refl)

  -- The solution behind the assignments of `begin`.
  abbrev pub begun_by : T → ResourceLimits → Solution I T → Solution I T
  begun_by t limits sol = record sol {
    tokenizer = some t;
    tokenizer_status = continue;
    result = [];
    resource_limits = limits;
  }

  pub scan_outbuf-Held :
      (lib : TokenizerLibrary T) (paid seen out : Bytes) (t : T) (limits : ResourceLimits)
      (sol : Solution I T) {sol' : Solution I T}
      → sol.outbuf ≡ out
      → seen ≡ paid ++ sol.outbuf
      → scan_outbuf lib t (begun_by t limits sol) out ≡ ok sol'
      → Held paid seen sol' × (sol.inbuf ≡ sol'.inbuf)
  unfolding scan_outbuf
  scan_outbuf-Held lib paid seen [] t limits sol o h e =
      subst (λ x. Held paid seen x × (sol.inbuf ≡ x.inbuf)) (ok-injective e)
        ((o, h ∙ ap (◌++◌ paid) o), refl)
  scan_outbuf-Held lib paid seen (b ∷ bs) t limits sol o h e =
      let ((t', r), _, f) = >>=-eq-ok (tokenize lib t sol.outbuf) _ e in
      let begun = begun_by t limits sol in
      subst (λ x. Held paid seen x × (sol.inbuf ≡ x.inbuf)) (ok-injective f)
        (leftover-Held paid seen t' begun r r.status h refl)

  -- The same, of a solution in an iteration.
  abbrev pub Open : Bytes → Bytes → Solution I T → Type 0
  Open paid seen sol =
      (t : T) × (sol.tokenizer ≡ some t)
      × BalancedAt sol.tokenizer_status paid seen sol.result sol.outbuf

  pub Held-Open :
      (paid seen : Bytes) (sol : Solution I T)
      → not (is_null sol.tokenizer) ≡ true
      → Held paid seen sol
      → Open paid seen sol
  Held-Open paid seen sol live held = elim (Option-cases sol.tokenizer) [
    | inl n ↦ let bad : false ≡ true = rw n at live in cc
    | inr (t, e) ↦
        (t, e, subst (λ x. HeldBy x sol.tokenizer_status paid seen sol.result sol.outbuf) e held)
  ]

  communicate-Open :
      (lib : TokenizerLibrary T) (env : Environment) (limit : ℤ) (ends : Ends) (paid seen : Bytes)
      (sol : Solution I T) (t : T) {r : Comm T × ResultStatus}
      → BalancedAt sol.tokenizer_status paid seen sol.result sol.outbuf
      → communicate lib ends limit env (comm_of t sol) ≡ ok r
      → Open paid (seen ++ r.0.reader.taken) (solution_of sol r.0)
        × (sol.inbuf ≡ r.0.writer.delivered ++ r.0.writer.inbuf)
  unfolding communicate
  communicate-Open lib env limit ends paid seen sol t {r} held e =
      let run : comm_loop lib ends (until_point env.start limit) (comm_of t sol) env.rounds ≡ ok r =
        ground arith in
      let start =
        subst (λ x. BalancedAt sol.tokenizer_status paid x sol.result sol.outbuf)
          (sym (append-nil seen)) held in
      (
        (
          r.0.reader.tokenizer,
          refl,
          comm_loop-Balanced paid seen lib ends _ env.rounds (comm_of t sol) start run,
        ),
        sym (comm_loop-stream_of lib ends _ env.rounds (comm_of t sol) run),
      )

  pub transfer-Open :
      (lib : TokenizerLibrary T) (env : Environment) (paid seen : Bytes) (sol : Solution I T)
      {r : Solution I T × ResultStatus × Comm T}
      → Open paid seen sol
      → transfer lib env sol ≡ ok r
      → Open paid (seen ++ r.2.reader.taken) r.0 × (sol.inbuf ≡ r.2.writer.delivered ++ r.0.inbuf)
  unfolding transfer communicate_with
  transfer-Open lib env paid seen sol {r} (t, tok, held) e =
      let known = rw tok at e in
      let ((c, s), p, f) =
        >>=-eq-ok
          (communicate lib sol.process.ends sol.resource_limits.real_time_limit env (comm_of t sol))
          _ known in
      subst
        (λ (x : Solution I T × ResultStatus × Comm T).
          Open paid (seen ++ x.2.reader.taken) x.0
          × (sol.inbuf ≡ x.2.writer.delivered ++ x.0.inbuf))
        (ok-injective f) (communicate-Open lib env _ sol.process.ends paid seen sol t held p)
