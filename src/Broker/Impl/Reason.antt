-- ===== src/Broker/Impl/Reason.antt =====
-- What the result of `end` in src/lib/BrokerImpl.cpp says of the output of the solution, status by
-- status.
use deprecated_yandex_contes.Base.{
  ℕ, ◌≤◌, true, ℤ, [], ◌++◌, some, Bytes, length, take, drop, ok, ◌>>=◌, ◌≡◌, refl, ap,
}
use deprecated_yandex_contes.Tokenizer.{
  Status, fail, continue, accepted, TokenizerResult, TokenizerLibrary, tokenize,
}
use deprecated_yandex_contes.Tokenizer.Laws.{shift}
use deprecated_yandex_contes.Broker.Types.{
  ResourceLimits, ResultStatus, ok_status, tokenizer_error, eof_error, time_limit_exceeded,
  real_time_limit_exceeded,
}
use deprecated_yandex_contes.Broker.Communicate.{Environment, Ends, is_continue}
use deprecated_yandex_contes.Broker.Communicate.Token.{ScannedAt}
use deprecated_yandex_contes.Broker.State.{Process, Solution, comm_of}
use deprecated_yandex_contes.Broker.Impl.{message, verdict}
use deprecated_yandex_contes.Broker.Communicate.Reports.{ClosesIn}
use deprecated_yandex_contes.Broker.Impl.Limit.{TimeIsOver}

-- What a transfer meets: the pipes and the clock, the ends of the pipes, and the limit.
pub record Setting : Type 0 where
  pub env : Environment
  pub ends : Ends
  pub limit : ℤ

abbrev pub setting_of : {I : Type 0} → Environment → Process I → ResourceLimits → Setting
setting_of env process limits = record {
  env = env;
  ends = process.ends;
  limit = limits.real_time_limit;
}

module _ {T : Type 0} (lib : TokenizerLibrary T) (Ready : T → Type 0) (t₀ : T) where
  -- The tokenizer has no answer to `whole`: it goes on behind it as `t`.
  abbrev pub Undecided : Bytes → Type 0
  Undecided whole =
      (t : T) × Ready t
      × ((ys : Bytes)
          → tokenize lib t₀ (whole ++ ys)
            ≡ tokenize lib t ys >>= λ (q : T × TokenizerResult). ok (shift (length whole) q))

  -- What a status says of the output `whole`, the payload, and the output that is kept.
  abbrev pub Reason : Setting → ResultStatus → Bytes → Bytes → Bytes → Type 0
  Reason at ok_status whole payload kept =
      (n : ℕ) × (t : T) × (tokenize lib t₀ whole
        ≡ ok (t, record { status = accepted; accepted = n }))
      × (n ≤ length whole)
      × (payload ≡ take n whole)
      × (kept ≡ drop n whole)
  Reason at tokenizer_error whole payload kept =
      (n : ℕ) × (t : T) × (tokenize lib t₀ whole ≡ ok (t, record { status = fail; accepted = n }))
      × (payload ≡ message lib (some t))
  Reason at eof_error whole payload kept =
      Undecided whole × ClosesIn at.ends at.env.rounds × (payload ≡ []) × (kept ≡ [])
  Reason at real_time_limit_exceeded whole payload kept =
      Undecided whole × TimeIsOver at.env at.limit × (payload ≡ []) × (kept ≡ [])
  Reason at time_limit_exceeded whole payload kept = ⊥

  pub verdict-Reason :
      {I : Type 0} (at : Setting) (s : Status) (whole : Bytes) (sol : Solution I T) (t : T)
      → sol.tokenizer ≡ some t
      → ScannedAt lib Ready t₀ s whole (comm_of t sol).reader
      → (is_continue s ≡ true → ClosesIn at.ends at.env.rounds)
      → Reason at (verdict lib s sol).status whole (verdict lib s sol).payload sol.outbuf
  unfolding verdict
  verdict-Reason at fail whole sol t tok (n, p) closed = (n, t, p, ap (message lib) tok)
  verdict-Reason at continue whole sol t tok (ready, _, empty, go) closed =
      ((t, ready, go), closed refl, refl, empty)
  verdict-Reason at accepted whole sol t tok (n, p, le, q, o) closed = (n, t, p, le, q, o)
