-- ===== src/Broker/Interface/Judge/Server.antt =====
-- The server's round on a line of the judge.
use deprecated_yandex_contes.Base.{
  true, false, ◌++◌, Option, none, Bytes, ok, >>=-eq-ok, ok-injective, ◌≡◌, inl, inr, sym, ap, ◌∙◌,
}
use deprecated_yandex_contes.Text.Streams.{IStream, OStream}
use deprecated_yandex_contes.Text.Archive.Lines.{command_line}
use deprecated_yandex_contes.Broker.Types.{Casts, IsExact, BrokerResult}
use deprecated_yandex_contes.Broker.Interface.{BrokerOps, Call, to_command, waits, run_once}
use deprecated_yandex_contes.Broker.Interface.Calls.{exec, exec-waits, Fits, reply, run_once-exec}

abbrev pub Silent : Call → Type 0
Silent call = waits call ≡ false

module _ {S : Type 0} (c : Casts) (exact : IsExact c) (b : BrokerOps S) where
  -- The server's round on the line of a call.
  pub serve-line :
      (call : Call) (rest replies : Bytes) (s₀ s : S) (input : IStream) (out : OStream)
      → Fits call
      → run_once c b
          (record { rest = command_line c (to_command c call) ++ rest; broken = false })
          s₀
          (record { sent = replies; good = true })
        ≡ ok (s, input, out)
      → (r : Option BrokerResult) × (exec b call s₀ ≡ ok (r, s))
        × (input.rest ≡ rest)
        × (out.sent ≡ (reply c r (record { sent = replies; good = true })).sent)
  serve-line call rest replies s₀ s input out fit e =
      let line =
        run_once-exec c exact b call s₀ (record { sent = replies; good = true }) rest false fit in
      let ((r, s'), p, q) = >>=-eq-ok (exec b call s₀) _ (sym line ∙ e) in
      let same = ok-injective q in
      (
        r,
        p ∙ ap (λ (x : S × IStream × OStream). ok (r, x.0)) same,
        ap (λ (x : S × IStream × OStream). x.1.rest) (sym same),
        ap (λ (x : S × IStream × OStream). x.2.sent) (sym same),
      )

  -- A call without a result leaves the pipe to the judge as it is.
  pub serve-Silent :
      (call : Call) (rest replies : Bytes) (s₀ s : S) (input : IStream) (out : OStream)
      → Fits call
      → Silent call
      → run_once c b
          (record { rest = command_line c (to_command c call) ++ rest; broken = false })
          s₀
          (record { sent = replies; good = true })
        ≡ ok (s, input, out)
      → (exec b call s₀ ≡ ok (none, s)) × (input.rest ≡ rest) × (out.sent ≡ replies)
  serve-Silent call rest replies s₀ s input out fit quiet e =
      let (r, p, left, sent) = serve-line call rest replies s₀ s input out fit e in
      elim (exec-waits b call s₀ p) [
        | inl (_, n) ↦ (
          p ∙ ap (λ x. ok (x, s)) n,
          left,
          sent ∙ ap (λ x. (reply c x (record { sent = replies; good = true })).sent) n,
        )
        | inr (_, w, _) ↦ cc
      ]
