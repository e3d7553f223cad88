-- ===== src/Broker/Interface/Judge/Direct.antt =====
-- Whatever the order of the steps, the judge and the broker do what they would do in one process.
use deprecated_yandex_contes.Base.{
  true, false, [], ◌∷◌, ◌++◌, Bytes, Result, ok, ok-injective, ◌≡◌, ◌≢◌, refl, sym, ap, subst, ◌∙◌,
}
use deprecated_yandex_contes.Text.Streams.{OStream}
use deprecated_yandex_contes.Text.Archive.{recv_command}
use deprecated_yandex_contes.Text.Archive.Lines.{command_line, send_command_lem}
use deprecated_yandex_contes.Text.Archive.RoundTrip.{recv_command_line}
use deprecated_yandex_contes.Broker.Types.{Casts, IsExact}
use deprecated_yandex_contes.Broker.Interface.{BrokerOps, Call, to_command, waits}
use deprecated_yandex_contes.Broker.Interface.Calls.{to_command-id, Fits}
use deprecated_yandex_contes.Broker.Interface.Session.{script, recv_command_end}
use deprecated_yandex_contes.Broker.Interface.Judge.{
  Judge, score, AllFit, play, Client, before, System, behind, Step, sends, serves, receives, Reach,
  here, next, begins,
}
use deprecated_yandex_contes.Broker.Interface.Judge.Place.{
  Place, idle, asked, answered, nothing_asked, judge_of, apart, Heads,
}
use deprecated_yandex_contes.Broker.Interface.Judge.Steps.{
  sends-Heads, serves-Heads, receives-Heads,
}

-- A line is not empty.
pub command_line-ne :
    (c : Casts) (exact : IsExact c) (call : Call)
    → Fits call
    → (rest : Bytes) → command_line c (to_command c call) ++ rest ≢ []
command_line-ne c exact call fit rest empty =
    let read =
      recv_command_line c exact rest false (to_command c call) (to_command-id c call fit) in
    let at_end =
      subst
        (λ x.
          recv_command c (record { rest = x; broken = false })
          ≡ ok (to_command c call, record { rest = rest; broken = false }))
        empty read in
    let clash = sym (recv_command_end c) ∙ at_end in cc

-- Behind its last call, the judge has nothing to do but to return its score.
Place-score :
    {A : Type 0} (c : Casts) (exact : IsExact c) (a : A) (client : Client A)
    (requests replies : Bytes) (rest : Judge A)
    → Place c client requests replies rest
    → client ≡ before (score a)
    → requests ≡ []
    → rest ≡ score a
unfolding script
Place-score c exact a client requests replies rest (idle [] judge place _ _ _ _ _ same) finished
      read =
    same ∙ ap (λ x. judge_of x judge) (sym place ∙ finished)
Place-score c exact a client requests replies rest
      (idle (p ∷ ps) judge place _ (fit, _) _ asks _ same) finished read =
    absurd (command_line-ne c exact p fit (script c ps) (sym asks ∙ read))
Place-score c exact a client requests replies rest (asked _ _ _ place _ _ _ _ _ _ _) finished read =
    absurd (apart (sym finished ∙ place))
Place-score c exact a client requests replies rest (answered _ _ place _ _ _ _) finished read =
    absurd (apart (sym finished ∙ place))

module _ {S A : Type 0} (c : Casts) (exact : IsExact c) (b : BrokerOps S) where
  Step-Heads :
      (m m' : System S A) (outcome : Result (A × S))
      → Step c b m m'
      → Heads c b outcome m
      → Heads c b outcome m'
  Step-Heads m m' outcome (sends call later out at e same) h =
      let line : m.requests ++ command_line c (to_command c call) ≡ out.sent =
        ap (λ (x : OStream). x.sent)
          (ok-injective (
            sym (send_command_lem c (to_command c call) (record { sent = m.requests; good = true }))
            ∙ e)) in
      subst (Heads c b outcome) (sym same) (
        subst
          (λ x. Heads c b outcome (record m { client = behind (waits call) later; requests = x }))
          line (sends-Heads c exact b m outcome call later (waits call) refl at h))
  Step-Heads m m' outcome (serves s input out some_left e same) h =
      subst (Heads c b outcome) (sym same)
        (serves-Heads c exact b m outcome s input out some_left e h)
  Step-Heads m m' outcome (receives later r input at some_left e same) h =
      subst (Heads c b outcome) (sym same)
        (receives-Heads c exact b m outcome later r input at some_left e h)

  pub Reach-Heads :
      (m m' : System S A) (outcome : Result (A × S))
      → Reach c b m m'
      → Heads c b outcome m
      → Heads c b outcome m'
  Reach-Heads m m' outcome here h = h
  Reach-Heads m m' outcome (next {m₁} {m₂} r st) h =
      Step-Heads m₁ m' outcome st (Reach-Heads m m₁ outcome r h)

  pub begins-Heads :
      (judge : Judge A) (s : S) → AllFit judge → Heads c b (play b judge s) (begins judge s)
  begins-Heads judge s all = (judge, idle [] judge refl tt tt all (nothing_asked c) refl refl, refl)

  -- A judge in one process that calls the broker in another one through BrokerInterface, whatever
  -- it does with the results and however the two interleave, ends with the same score, and leaves
  -- the broker in the same state, as if it called the broker itself: this is so whenever it has
  -- ended and the broker has read all its commands. The numbers of all its calls fit, the casts are
  -- exact, and a line comes through a pipe as a whole.
  pub Reach-play :
      (judge : Judge A) (s : S) (a : A) (m : System S A)
      → AllFit judge
      → Reach c b (begins judge s) m
      → m.client ≡ before (score a)
      → m.requests ≡ []
      → play b judge s ≡ ok (a, m.server)
  unfolding play
  Reach-play judge s a m all run finished read =
      let (rest, place, o) =
        Reach-Heads (begins judge s) m (play b judge s) run (begins-Heads judge s all) in
      sym o
      ∙ ap (λ x. play b x m.server)
          (Place-score c exact a m.client m.requests m.replies rest place finished read)
