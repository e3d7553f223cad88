-- ===== src/Broker/Interface/Judge/Progress.antt =====
-- The two processes never wait for each other.
use deprecated_yandex_contes.Base.{
  true, false, [], ◌∷◌, ◌++◌, Option, Bytes, Result-cases, ok, err, ◌≡◌, ◌≢◌, ◌⊎◌, inl, inr, refl,
  sym, ap, subst, ◌∙◌, append-nil,
}
use deprecated_yandex_contes.Text.Streams.{OStream}
use deprecated_yandex_contes.Text.Archive.{recv_result, load}
use deprecated_yandex_contes.Text.Escape.{unescape}
use deprecated_yandex_contes.Text.Archive.Lines.{command_line, result_line, send_command_lem}
use deprecated_yandex_contes.Text.Archive.RoundTrip.{recv_result_line}
use deprecated_yandex_contes.Broker.Types.{Casts, IsExact, BrokerResult}
use deprecated_yandex_contes.Broker.Interface.{BrokerOps, Call, to_command, run_once}
use deprecated_yandex_contes.Broker.Interface.Calls.{exec, Fits, reply, run_once-exec}
use deprecated_yandex_contes.Broker.Interface.Session.{script}
use deprecated_yandex_contes.Broker.Interface.Judge.{
  Judge, score, calls, AllFit, play, before, System, Step, sends, serves, receives, Reach, begins,
}
use deprecated_yandex_contes.Broker.Interface.Judge.Place.{Place, idle, asked, answered}
use deprecated_yandex_contes.Broker.Interface.Judge.Direct.{
  command_line-ne, Reach-Heads, begins-Heads,
}
use deprecated_yandex_contes.Base.{Error, end_of_file}

recv_result_end :
    (c : Casts) → recv_result c (record { rest = []; broken = false }) ≡ err end_of_file
unfolding recv_result load unescape
recv_result_end c = refl

pub result_line-ne : (c : Casts) (exact : IsExact c) (r : BrokerResult) → result_line c r ≢ []
result_line-ne c exact r empty =
    let read = recv_result_line c exact [] false r in
    let at_end =
      subst
        (λ x.
          recv_result c (record { rest = x; broken = false })
          ≡ ok (r, record { rest = []; broken = false }))
        (append-nil (result_line c r) ∙ empty) read in
    let clash = sym (recv_result_end c) ∙ at_end in cc

module _ {S A : Type 0} (c : Casts) (exact : IsExact c) (b : BrokerOps S) where
  -- One of the two can go on.
  abbrev pub GoesOn : System S A → Type 0
  GoesOn m = (m' : System S A) × Step c b m m'

  abbrev pub Fails : Judge A → S → Type 0
  Fails judge s = (e : Error) × (play b judge s ≡ err e)

  -- With a line in its pipe, the server makes the call, unless that fails.
  serve_or_fail :
      (m : System S A) (call : Call) (rest : Bytes) (later : Option BrokerResult → Judge A)
      → Fits call
      → m.requests ≡ command_line c (to_command c call) ++ rest
      → GoesOn m ⊎ Fails (calls call later) m.server
  unfolding play
  serve_or_fail m call rest later fit asks = elim (Result-cases (exec b call m.server)) [
    | inl (e, p) ↦ inr (e, rw (play, p) refl)
    | inr ((r, s'), p) ↦
        let out : OStream = record { sent = m.replies; good = true } in
        let line = run_once-exec c exact b call m.server out rest false fit in
        let run =
          subst
            (λ x.
              run_once c b (record { rest = x; broken = false }) m.server out
              ≡ ok (s', record { rest = rest; broken = false }, reply c r out))
            (sym asks) (rw p at line) in
        inl (
          _,
          serves s' (record { rest = rest; broken = false }) (reply c r out)
              (λ empty. command_line-ne c exact call fit rest (sym asks ∙ empty)) run refl,
        )
  ]

  Fails-first :
      (m : System S A) (rest first : Judge A)
      → rest ≡ first
      → GoesOn m ⊎ Fails first m.server
      → GoesOn m ⊎ Fails rest m.server
  Fails-first m rest first same (inl on) = inl on
  Fails-first m rest first same (inr (e, p)) = inr (e, ap (λ x. play b x m.server) same ∙ p)

  abbrev pub Ended : System S A → Type 0
  Ended m = (a : A) × (m.client ≡ before (score a)) × (m.requests ≡ [])

  Place-GoesOn :
      (m : System S A) (rest : Judge A)
      → Place c m.client m.requests m.replies rest
      → Ended m ⊎ (GoesOn m ⊎ Fails rest m.server)
  unfolding script
  Place-GoesOn m rest (idle [] (score a) place _ _ _ asks _ _) = inl (a, place, asks)
  Place-GoesOn m rest (idle [] (calls call later) place _ _ _ asks _ _) = inr (
      inl (
        _,
        sends call later _ place
            (send_command_lem c (to_command c call) (record { sent = m.requests; good = true }))
            refl,
      ))
  Place-GoesOn m rest (idle (p ∷ ps) judge place _ (fit, _) _ asks _ same) =
      inr (Fails-first m rest _ same (serve_or_fail m p (script c ps) _ fit asks))
  Place-GoesOn m rest (asked [] call later place _ _ _ all asks _ same) =
      inr (Fails-first m rest _ same (serve_or_fail m call [] later all.0 asks))
  Place-GoesOn m rest (asked (p ∷ ps) call later place _ (fit, _) _ _ asks _ same) =
      inr (Fails-first m rest _ same (serve_or_fail m p (script c (ps ++ call ∷ [])) _ fit asks))
  Place-GoesOn m rest (answered r later place _ _ line _) = inr (
      inl (
        _,
        receives later r (record { rest = []; broken = false }) place
            (λ empty. result_line-ne c exact r (sym line ∙ empty))
            (subst
              (λ x.
                recv_result c (record { rest = x; broken = false })
                ≡ ok (r, record { rest = []; broken = false }))
              (append-nil (result_line c r) ∙ sym line) (recv_result_line c exact [] false r))
            refl,
      ))

  -- However a judge in one process and the broker in another one interleave, either the judge has
  -- ended and the broker has read all its commands, or one of the two can go on, or a call of the
  -- judge fails as it does if the judge calls the broker itself. The numbers of all its calls fit,
  -- the casts are exact, and a line comes through a pipe as a whole.
  pub Reach-GoesOn :
      (judge : Judge A) (s : S) (m : System S A)
      → AllFit judge
      → Reach c b (begins judge s) m
      → Ended m ⊎ (GoesOn m ⊎ Fails judge s)
  Reach-GoesOn judge s m all run =
      let (rest, place, o) =
        Reach-Heads c exact b (begins judge s) m (play b judge s) run
          (begins-Heads c exact b judge s all) in
      elim (Place-GoesOn m rest place) [
        | inl over ↦ inl over
        | inr (inl on) ↦ inr (inl on)
        | inr (inr (e, p)) ↦ inr (inr (e, sym o ∙ p))
      ]
