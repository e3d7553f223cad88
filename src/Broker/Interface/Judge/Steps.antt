-- ===== src/Broker/Interface/Judge/Steps.antt =====
-- Each step of the two processes leaves what they have still to do together as it is.
use deprecated_yandex_contes.Base.{
  Bool, true, false, [], ◌∷◌, ◌++◌, Option, none, some, Bytes, Result, ok, ok-injective, ◌≡◌, ◌≢◌,
  inl, inr, refl, sym, ap, subst, ◌∙◌, append-nil,
}
use deprecated_yandex_contes.Text.Streams.{IStream, OStream}
use deprecated_yandex_contes.Text.Archive.{recv_result}
use deprecated_yandex_contes.Text.Archive.Lines.{command_line, result_line}
use deprecated_yandex_contes.Text.Archive.RoundTrip.{recv_result_line}
use deprecated_yandex_contes.Broker.Types.{Casts, IsExact, BrokerResult}
use deprecated_yandex_contes.Broker.Interface.{BrokerOps, Call, to_command, waits, run_once}
use deprecated_yandex_contes.Broker.Interface.Calls.{exec-waits, Fits, reply}
use deprecated_yandex_contes.Broker.Interface.Session.{script}
use deprecated_yandex_contes.Broker.Interface.Judge.Server.{Silent, serve-line, serve-Silent}
use deprecated_yandex_contes.Broker.Interface.Judge.{
  Judge, calls, AllFit, play, before, within, System, behind,
}
use deprecated_yandex_contes.Broker.Interface.Judge.Place.{
  owing, idle, asked, answered, script-snoc, nothing_asked, All-snoc, judge_of, resume, apart,
  play-calls, play-owing, Heads,
}

module _ {S A : Type 0} (c : Casts) (exact : IsExact c) (b : BrokerOps S) where
  -- The judge has written the line of a call.
  pub sends-Heads :
      (m : System S A) (outcome : Result (A × S)) (call : Call)
      (later : Option BrokerResult → Judge A) (waiting : Bool)
      → waits call ≡ waiting
      → m.client ≡ before (calls call later)
      → Heads c b outcome m
      → Heads c b outcome (record m {
        client = behind waiting later;
        requests = m.requests ++ command_line c (to_command c call);
      })
  sends-Heads m outcome call later false w at
        (_, idle pending judge place quiet fits all asks bare same, o) =
      let known : judge ≡ calls call later = ap (λ x. judge_of x judge) (sym place ∙ at) in
      let (fit, rest) = subst AllFit known all in
      (
        owing (pending ++ call ∷ []) (later none),
        idle (pending ++ call ∷ []) (later none) refl (All-snoc Silent pending call quiet w)
            (All-snoc Fits pending call fits fit) (rest none)
            (ap (λ x. x ++ command_line c (to_command c call)) asks
              ∙ sym (script-snoc c pending call))
            bare refl,
        play-owing b pending call later m.server w
            ∙ ap (λ x. play b x m.server) (sym (same ∙ ap (owing pending) known))
            ∙ o,
      )
  sends-Heads m outcome call later true w at
        (_, idle pending judge place quiet fits all asks bare same, o) =
      let known : judge ≡ calls call later = ap (λ x. judge_of x judge) (sym place ∙ at) in
      (
        owing pending (calls call later),
        asked pending call later refl quiet fits w (subst AllFit known all)
            (ap (λ x. x ++ command_line c (to_command c call)) asks
              ∙ sym (script-snoc c pending call))
            bare refl,
        ap (λ x. play b x m.server) (sym (same ∙ ap (owing pending) known)) ∙ o,
      )
  sends-Heads m outcome call later waiting w at (_, asked _ _ _ place _ _ _ _ _ _ _, o) =
      absurd (apart (sym at ∙ place))
  sends-Heads m outcome call later waiting w at (_, answered _ _ place _ _ _ _, o) =
      absurd (apart (sym at ∙ place))

  on_line :
      (m : System S A) {line : Bytes} {s : S} {input : IStream} {out : OStream}
      → m.requests ≡ line
      → run_once c b
          (record { rest = m.requests; broken = false })
          m.server
          (record { sent = m.replies; good = true })
        ≡ ok (s, input, out)
      → run_once c b
          (record { rest = line; broken = false })
          m.server
          (record { sent = m.replies; good = true })
        ≡ ok (s, input, out)
  on_line m {line} {s} {input} {out} asks e =
      subst
        (λ x.
          run_once c b (record { rest = x; broken = false }) m.server
            (record { sent = m.replies; good = true })
          ≡ ok (s, input, out))
        asks e

  -- The server has read a line, made the call and written what it replies.
  pub serves-Heads :
      (m : System S A) (outcome : Result (A × S)) (s : S) (input : IStream) (out : OStream)
      → m.requests ≢ []
      → run_once c b
          (record { rest = m.requests; broken = false })
          m.server
          (record { sent = m.replies; good = true })
        ≡ ok (s, input, out)
      → Heads c b outcome m
      → Heads c b outcome (record m { requests = input.rest; replies = out.sent; server = s })
  unfolding script
  serves-Heads m outcome s input out some_left e
        (_, idle [] judge place quiet fits all asks bare same, o) =
      absurd (some_left asks)
  serves-Heads m outcome s input out some_left e
        (_, idle (p ∷ ps) judge place (silent, quiet) (fit, fits) all asks bare same, o) =
      let (p₁, left, sent) =
        serve-Silent c exact b p (script c ps) m.replies m.server s input out fit silent
          (on_line m asks e) in
      (
        owing ps judge,
        idle ps judge place quiet fits all left (sent ∙ bare) refl,
        sym (play-calls b p (λ _. owing ps judge) m.server p₁)
            ∙ ap (λ x. play b x m.server) (sym same)
            ∙ o,
      )
  serves-Heads m outcome s input out some_left e
        (_, asked [] call later place quiet fits w all asks bare same, o) =
      let (r, p₁, left, sent) =
        serve-line c exact b call [] m.replies m.server s input out all.0 (on_line m asks e) in
      elim (exec-waits b call m.server p₁) [
        | inl (n, _) ↦ cc
        | inr (a, _, is_a) ↦ (
          later (some a),
          answered a later place (all.1 (some a)) left
              (sent
                ∙ ap (λ x. (reply c x (record { sent = m.replies; good = true })).sent) is_a
                ∙ ap (λ x. x ++ result_line c a) bare)
              refl,
          ap (λ x. play b (later x) s) (sym is_a)
              ∙ sym (play-calls b call later m.server p₁)
              ∙ ap (λ x. play b x m.server) (sym same)
              ∙ o,
        )
      ]
  serves-Heads m outcome s input out some_left e
        (_, asked (p ∷ ps) call later place (silent, quiet) (fit, fits) w all asks bare same, o) =
      let (p₁, left, sent) =
        serve-Silent c exact b p (script c (ps ++ call ∷ [])) m.replies m.server s input out fit
          silent (on_line m asks e) in
      (
        owing ps (calls call later),
        asked ps call later place quiet fits w all left (sent ∙ bare) refl,
        sym (play-calls b p (λ _. owing ps (calls call later)) m.server p₁)
            ∙ ap (λ x. play b x m.server) (sym same)
            ∙ o,
      )
  serves-Heads m outcome s input out some_left e (_, answered _ _ _ _ empty _ _, o) =
      absurd (some_left empty)

  -- The judge has read the line of a result.
  pub receives-Heads :
      (m : System S A) (outcome : Result (A × S)) (later : Option BrokerResult → Judge A)
      (r : BrokerResult) (input : IStream)
      → m.client ≡ within later
      → m.replies ≢ []
      → recv_result c (record { rest = m.replies; broken = false }) ≡ ok (r, input)
      → Heads c b outcome m
      → Heads c b outcome (record m { client = before (later (some r)); replies = input.rest })
  receives-Heads m outcome later r input at some_left e (_, idle _ _ place _ _ _ _ _ _, o) =
      absurd (apart (sym place ∙ at))
  receives-Heads m outcome later r input at some_left e (_, asked _ _ _ _ _ _ _ _ _ bare _, o) =
      absurd (some_left bare)
  receives-Heads m outcome later r input at some_left e
        (_, answered a next_one place all empty line same, o) =
      let read =
        subst (λ x. recv_result c (record { rest = x; broken = false }) ≡ ok (r, input))
          (line ∙ sym (append-nil (result_line c a))) e in
      let got = ok-injective (sym (recv_result_line c exact [] false a) ∙ read) in
      let is_r : a ≡ r = ap (λ (x : BrokerResult × IStream). x.0) got in
      let left : input.rest ≡ [] = ap (λ (x : BrokerResult × IStream). x.1.rest) (sym got) in
      let resumed : next_one (some a) ≡ later (some r) =
        ap (λ x. resume x next_one (some a)) (sym place ∙ at) ∙ ap (λ x. later (some x)) is_r in
      (
        later (some r),
        idle [] (later (some r)) refl tt tt (subst AllFit resumed all) (empty ∙ nothing_asked c)
            left refl,
        ap (λ x. play b x m.server) (sym (same ∙ resumed)) ∙ o,
      )
