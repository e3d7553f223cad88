-- ===== src/Broker/Interface/Termination.antt =====
-- The loop of src/bin/broker.cpp ends on every finite input.
use deprecated_yandex_contes.Base.{
  ℕ, zero, suc, ◌<◌, List, [], ◌∷◌, Option, none, some, Bytes, length, Result, Error, ok, err,
  pending, or_throw, bad_lexical_cast, ◌>>=◌, >>=-eq-ok, Result-cases, ◌≡◌, ◌≢◌, ◌⊎◌, refl, ap, ◌∙◌,
  inl, inr, arith,
}
use deprecated_yandex_contes.Text.Streams.{IStream, OStream}
use deprecated_yandex_contes.Text.Archive.{recv_command, send_result}
use deprecated_yandex_contes.Text.Archive.Lines.{send_result_lem}
use deprecated_yandex_contes.Text.Archive.Progress.{recv_command-ne-pending, recv_command-lt}
use deprecated_yandex_contes.Broker.Types.{
  Casts, CommandType, begin_type, send_type, end_type, terminate_type,
}
use deprecated_yandex_contes.Broker.Interface.{
  BrokerOps, Call, begin_with, begin_as, begin, send, end_with, end, terminate, run, run_type,
  run_once, run_begin, run_send, run_end, run_terminate, waiting, exit_of, serve,
}
use deprecated_yandex_contes.Broker.Interface.Calls.{exec}

exit_of-pending : (e : Error) → exit_of e ≡ waiting → e ≡ pending
exit_of-pending _ h = ground arith

run_once-lt :
    {S : Type 0} (c : Casts) (b : BrokerOps S) (input : IStream) (s : S) (out : OStream) {s' : S}
    {input' : IStream} {out' : OStream}
    → run_once c b input s out ≡ ok (s', input', out')
    → length input'.rest < length input.rest
unfolding run_once
run_once-lt c b input s out e =
    let ((command, rest), p, e₁) = >>=-eq-ok (recv_command c input) _ e in
    let (_, q, e₂) = >>=-eq-ok (run c b command s out) _ e₁ in
    ground (arith, recv_command-lt c input p)

via :
    {A B : Type 0} (m : Result A) (f : A → Result B)
    → (m >>= f) ≡ err pending
    → (m ≡ err pending) ⊎ ((a : A) × (f a ≡ err pending))
via (ok a) f h = inr (a, h)
via (err e) f h = inl cc

cast-ne-pending : {A : Type 0} (o : Option A) → or_throw o bad_lexical_cast ≢ err pending
cast-ne-pending none = λ p. cc
cast-ne-pending (some a) = λ p. cc

module _ {S : Type 0} (c : Casts) (b : BrokerOps S) where
  -- A call of the broker waits for its environment for ever.
  abbrev pub Stuck : S → Type 0
  Stuck s = (call : Call) × (exec b call s ≡ err pending)

  run_begin-Stuck :
      (id : ℕ) (args : List Bytes) (s : S) → run_begin c b id args s ≡ err pending → Stuck s
  unfolding run_begin exec
  run_begin-Stuck id [] s h = (begin id, rw h refl)
  run_begin-Stuck id (a ∷ []) s h = (begin_as id a, rw h refl)
  run_begin-Stuck id (_ ∷ _ ∷ []) s h = absurd (ground arith)
  run_begin-Stuck id (a ∷ u ∷ r ∷ []) s h =
      elim (via (or_throw (c.millis_cast.from_string u) bad_lexical_cast) _ h) [
        | inl p ↦ absurd (cast-ne-pending (c.millis_cast.from_string u) p)
        | inr (user, h₁) ↦
            elim (via (or_throw (c.millis_cast.from_string r) bad_lexical_cast) _ h₁) [
              | inl p ↦ absurd (cast-ne-pending (c.millis_cast.from_string r) p)
              | inr (real, h₂) ↦ (
                begin_with id a (record { user_time_limit = user; real_time_limit = real }),
                rw h₂ refl,
              )
            ]
      ]
  run_begin-Stuck id (_ ∷ _ ∷ _ ∷ _ ∷ _) s h = absurd (ground arith)

  run_send-Stuck :
      (id : ℕ) (args : List Bytes) (s : S) → run_send c b id args s ≡ err pending → Stuck s
  unfolding run_send exec
  run_send-Stuck id [] s h = absurd (ground arith)
  run_send-Stuck id (msg ∷ []) s h = (send id msg, rw h refl)
  run_send-Stuck id (_ ∷ _ ∷ _) s h = absurd (ground arith)

  run_end-Stuck :
      (id : ℕ) (args : List Bytes) (s : S) → run_end c b id args s ≡ err pending → Stuck s
  unfolding run_end exec
  run_end-Stuck id [] s h = (end id, rw h refl)
  run_end-Stuck id (d ∷ []) s h =
      elim (via (or_throw (c.bool_cast.from_string d) bad_lexical_cast) _ h) [
        | inl p ↦ absurd (cast-ne-pending (c.bool_cast.from_string d) p)
        | inr (discard, h₁) ↦ (end_with id discard, rw h₁ refl)
      ]
  run_end-Stuck id (_ ∷ _ ∷ _) s h = absurd (ground arith)

  run_terminate-Stuck :
      (id : ℕ) (args : List Bytes) (s : S) → run_terminate c b id args s ≡ err pending → Stuck s
  unfolding run_terminate exec
  run_terminate-Stuck id [] s h = (terminate id, rw h refl)
  run_terminate-Stuck id (_ ∷ _) s h = absurd (ground arith)

  run_type-Stuck :
      (type : CommandType) (id : ℕ) (args : List Bytes) (s : S) (out : OStream)
      → run_type c b type id args s out ≡ err pending
      → Stuck s
  unfolding run_type
  run_type-Stuck begin_type id args s out h = elim (via (run_begin c b id args s) _ h) [
    | inl p ↦ run_begin-Stuck id args s p
    | inr (s', k) ↦ absurd cc
  ]
  run_type-Stuck send_type id args s out h = elim (via (run_send c b id args s) _ h) [
    | inl p ↦ run_send-Stuck id args s p
    | inr (s', k) ↦ absurd cc
  ]
  run_type-Stuck end_type id args s out h = elim (via (run_end c b id args s) _ h) [
    | inl p ↦ run_end-Stuck id args s p
    | inr ((r, s'), k) ↦
        let never : ◌>>=◌ {B = S × OStream} (send_result c r out) (λ o. ok (s', o)) ≢ err pending =
          rw (send_result_lem c r out) (λ q. cc) in
        absurd (never k)
  ]
  run_type-Stuck terminate_type id args s out h = elim (via (run_terminate c b id args s) _ h) [
    | inl p ↦ run_terminate-Stuck id args s p
    | inr (s', k) ↦ absurd cc
  ]

  run_once-Stuck :
      (input : IStream) (s : S) (out : OStream) → run_once c b input s out ≡ err pending → Stuck s
  unfolding run_once run
  run_once-Stuck input s out h = elim (via (recv_command c input) _ h) [
    | inl p ↦ absurd (recv_command-ne-pending c input p)
    | inr ((command, input'), h₁) ↦
        elim (via (run_type c b command.type command.id command.args s out) _ h₁) [
          | inl p ↦ run_type-Stuck command.type command.id command.args s out p
          | inr (done, k) ↦ absurd cc
        ]
  ]

  -- The loop of broker.cpp ends on every finite input, whatever its bytes, with more fuel than
  -- bytes, unless a call of the broker waits for ever: if it has not ended, there is such a call in
  -- the state that it has come to.
  pub serve-Stuck :
      (fuel : ℕ) (input : IStream) (s : S) (out : OStream)
      → length input.rest < fuel
      → (serve c b fuel input s out).exit ≡ waiting
      → Stuck (serve c b fuel input s out).state
  unfolding serve
  serve-Stuck zero input s out h w = absurd (omega arith)
  serve-Stuck (suc fuel) input s out h w = elim (Result-cases (run_once c b input s out)) [
    | inl (e, p) ↦
        let ends : exit_of e ≡ waiting = rw (serve, p) at w in
        let stuck = run_once-Stuck input s out (p ∙ ap err (exit_of-pending e ends)) in
        rw (p, serve) stuck
    | inr ((s', input', out'), p) ↦
        let later : (serve c b fuel input' s' out').exit ≡ waiting = rw (serve, p) at w in
        rw (p, serve)
          (serve-Stuck fuel input' s' out' (omega (arith, run_once-lt c b input s out p)) later)
  ]
