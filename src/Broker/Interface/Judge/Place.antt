-- ===== src/Broker/Interface/Judge/Place.antt =====
-- Where a judge and a broker of two processes can be, and what they have still to do.
use deprecated_yandex_contes.Base.{
  Bool, true, false, List, [], ◌∷◌, ◌++◌, Option, none, some, Bytes, All, Result, Result-cases, ok,
  ◌≡◌, inl, inr, refl, sym, ap, ◌∙◌, append-nil, append_assoc,
}
use deprecated_yandex_contes.Text.Archive.Lines.{command_line, result_line}
use deprecated_yandex_contes.Broker.Types.{Casts, BrokerResult}
use deprecated_yandex_contes.Broker.Interface.{BrokerOps, Call, to_command, waits}
use deprecated_yandex_contes.Broker.Interface.Calls.{exec, exec-waits, Fits}
use deprecated_yandex_contes.Broker.Interface.Session.{script}
use deprecated_yandex_contes.Broker.Interface.Judge.Server.{Silent}
use deprecated_yandex_contes.Broker.Interface.Judge.{
  Judge, calls, AllFit, play, Client, before, within, System,
}

-- Calls that the server has still to read, in front of what the judge does then.
abbrev pub owing : {A : Type 0} → List Call → Judge A → Judge A
owing [] judge = judge
owing (call ∷ pending) judge = calls call (λ _. owing pending judge)

-- The three places where the two processes can be: the judge is before a call; or it waits, and the
-- server has not answered yet; or the answer is in the pipe.
pub data Place {A : Type 0} (c : Casts) : Client A → Bytes → Bytes → Judge A → Type 0 where
  idle :
      {client : Client A} {requests replies : Bytes} {rest : Judge A} (pending : List Call)
      (judge : Judge A)
      → client ≡ before judge
      → All Silent pending
      → All Fits pending
      → AllFit judge
      → requests ≡ script c pending
      → replies ≡ []
      → rest ≡ owing pending judge
      → Place c client requests replies rest
  asked :
      {client : Client A} {requests replies : Bytes} {rest : Judge A} (pending : List Call)
      (call : Call) (later : Option BrokerResult → Judge A)
      → client ≡ within later
      → All Silent pending
      → All Fits pending
      → waits call ≡ true
      → AllFit (calls call later)
      → requests ≡ script c (pending ++ call ∷ [])
      → replies ≡ []
      → rest ≡ owing pending (calls call later)
      → Place c client requests replies rest
  answered :
      {client : Client A} {requests replies : Bytes} {rest : Judge A} (r : BrokerResult)
      (later : Option BrokerResult → Judge A)
      → client ≡ within later
      → AllFit (later (some r))
      → requests ≡ []
      → replies ≡ result_line c r
      → rest ≡ later (some r)
      → Place c client requests replies rest

pub script-snoc :
    (c : Casts) (pending : List Call) (call : Call)
    → script c (pending ++ call ∷ []) ≡ script c pending ++ command_line c (to_command c call)
unfolding script
script-snoc c [] call = append-nil (command_line c (to_command c call))
script-snoc c (p ∷ ps) call =
    ap (◌++◌ (command_line c (to_command c p))) (script-snoc c ps call)
    ∙ sym (append_assoc (command_line c (to_command c p)) (script c ps) _)

pub nothing_asked : (c : Casts) → [] ≡ script c []
unfolding script
nothing_asked c = refl

pub All-snoc :
    (P : Call → Type 0) (pending : List Call) (call : Call)
    → All P pending
    → P call
    → All P (pending ++ call ∷ [])
All-snoc P [] call h p = (p, tt)
All-snoc P (q ∷ qs) call (h, hs) p = (h, All-snoc P qs call hs p)

abbrev pub judge_of : {A : Type 0} → Client A → Judge A → Judge A
judge_of (before j) other = j
judge_of (within k) other = other

abbrev pub is_before : {A : Type 0} → Client A → Bool
is_before (before j) = true
is_before (within k) = false

abbrev pub resume :
    {A : Type 0} → Client A → (Option BrokerResult → Judge A) → Option BrokerResult → Judge A
resume (before j) other = other
resume (within k) other = k

pub apart : {A : Type 0} {j : Judge A} {k : Option BrokerResult → Judge A} → before j ≡ within k → ⊥
apart e = let clash : true ≡ false = ap is_before e in cc

module _ {S A : Type 0} (b : BrokerOps S) where
  pub play-calls :
      (call : Call) (later : Option BrokerResult → Judge A) (s : S) {r : Option BrokerResult}
      {s' : S}
      → exec b call s ≡ ok (r, s')
      → play b (calls call later) s ≡ play b (later r) s'
  unfolding play
  play-calls call later s e = rw (play, e) refl

  -- A call without a result can be owed.
  pub play-owing :
      (pending : List Call) (call : Call) (later : Option BrokerResult → Judge A) (s : S)
      → Silent call
      → play b (owing (pending ++ call ∷ []) (later none)) s
        ≡ play b (owing pending (calls call later)) s
  unfolding play
  play-owing [] call later s quiet = elim (Result-cases (exec b call s)) [
    | inl (e, p) ↦ rw (play, p) refl
    | inr ((r, s'), p) ↦ elim (exec-waits b call s p) [
      | inl (_, n) ↦ rw (play, p, n) refl
      | inr (_, w, _) ↦ cc
    ]
  ]
  play-owing (q ∷ qs) call later s quiet = elim (Result-cases (exec b q s)) [
    | inl (e, p) ↦ rw (play, p) refl
    | inr ((r, s'), p) ↦ rw (play, p) (play-owing qs call later s' quiet)
  ]

module _ {S A : Type 0} (c : Casts) (b : BrokerOps S) where
  -- What the two processes have still to do, in one process, gives `outcome`.
  abbrev pub Heads : Result (A × S) → System S A → Type 0
  Heads outcome m =
      (rest : Judge A) × Place c m.client m.requests m.replies rest
      × (play b rest m.server ≡ outcome)
