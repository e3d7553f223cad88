-- ===== src/Broker/Interface/Keeps.antt =====
-- The server of src/lib/BrokerInterface.cpp changes its broker by the methods of `Broker` only, so
-- what each of them keeps, the loop of src/bin/broker.cpp keeps, whatever it reads.
use deprecated_yandex_contes.Base.{
  ℕ, zero, suc, List, [], ◌∷◌, Option, none, some, Bytes, ok, or_throw, bad_lexical_cast, >>=-eq-ok,
  ok-injective, Result-cases, ◌≡◌, refl, subst, inl, inr,
}
use deprecated_yandex_contes.Text.Streams.{IStream, OStream}
use deprecated_yandex_contes.Text.Archive.{recv_command, send_result}
use deprecated_yandex_contes.Broker.Types.{
  Casts, CommandType, begin_type, send_type, end_type, terminate_type, BrokerResult,
}
use deprecated_yandex_contes.Broker.Interface.{
  BrokerOps, Call, begin_with, begin_as, begin, send, end_with, end, terminate, run_begin, run_send,
  run_end, run_terminate, run_type, run, run_once, serve,
}
use deprecated_yandex_contes.Broker.Interface.Calls.{exec}

module _ {S : Type 0} (c : Casts) (b : BrokerOps S) where
  -- Some method of the broker led from `s` to `s'`.
  abbrev pub Called : S → S → Type 0
  Called s s' = (call : Call) × (r : Option BrokerResult) × (exec b call s ≡ ok (r, s'))

  run_begin-Called :
      (id : ℕ) (args : List Bytes) (s : S) {s' : S} → run_begin c b id args s ≡ ok s' → Called s s'
  unfolding run_begin exec
  run_begin-Called id [] s e = (begin id, none, rw e refl)
  run_begin-Called id (a ∷ []) s e = (begin_as id a, none, rw e refl)
  run_begin-Called id (a ∷ u ∷ r ∷ []) s e =
      let (user, _, f) = >>=-eq-ok (or_throw (c.millis_cast.from_string u) bad_lexical_cast) _ e in
      let (real, _, g) = >>=-eq-ok (or_throw (c.millis_cast.from_string r) bad_lexical_cast) _ f in
      (begin_with id a (record { user_time_limit = user; real_time_limit = real }), none, rw g refl)
  run_begin-Called id (_ ∷ _ ∷ []) s e = cc
  run_begin-Called id (_ ∷ _ ∷ _ ∷ _ ∷ _) s e = cc

  run_send-Called :
      (id : ℕ) (args : List Bytes) (s : S) {s' : S} → run_send c b id args s ≡ ok s' → Called s s'
  unfolding run_send exec
  run_send-Called id [] s e = cc
  run_send-Called id (msg ∷ []) s e = (send id msg, none, rw e refl)
  run_send-Called id (_ ∷ _ ∷ _) s e = cc

  run_end-Called :
      (id : ℕ) (args : List Bytes) (s : S) {r : BrokerResult × S}
      → run_end c b id args s ≡ ok r
      → Called s r.1
  unfolding run_end exec
  run_end-Called id [] s {r} e = (end id, some r.0, rw e refl)
  run_end-Called id (d ∷ []) s {r} e =
      let (discard, _, f) = >>=-eq-ok (or_throw (c.bool_cast.from_string d) bad_lexical_cast) _ e in
      (end_with id discard, some r.0, rw f refl)
  run_end-Called id (_ ∷ _ ∷ _) s e = cc

  run_terminate-Called :
      (id : ℕ) (args : List Bytes) (s : S) {s' : S}
      → run_terminate c b id args s ≡ ok s'
      → Called s s'
  unfolding run_terminate exec
  run_terminate-Called id [] s e = (terminate id, none, rw e refl)
  run_terminate-Called id (_ ∷ _) s e = cc

  run_type-Called :
      (type : CommandType) (id : ℕ) (args : List Bytes) (s : S) (out : OStream) {r : S × OStream}
      → run_type c b type id args s out ≡ ok r
      → Called s r.0
  unfolding run_type
  run_type-Called begin_type id args s out e =
      let (s', p, f) = >>=-eq-ok (run_begin c b id args s) _ e in
      subst (λ (x : S × OStream). Called s x.0) (ok-injective f) (run_begin-Called id args s p)
  run_type-Called send_type id args s out e =
      let (s', p, f) = >>=-eq-ok (run_send c b id args s) _ e in
      subst (λ (x : S × OStream). Called s x.0) (ok-injective f) (run_send-Called id args s p)
  run_type-Called end_type id args s out e =
      let (d, p, f) = >>=-eq-ok (run_end c b id args s) _ e in
      let (out', _, g) = >>=-eq-ok (send_result c d.0 out) _ f in
      subst (λ (x : S × OStream). Called s x.0) (ok-injective g) (run_end-Called id args s p)
  run_type-Called terminate_type id args s out e =
      let (s', p, f) = >>=-eq-ok (run_terminate c b id args s) _ e in
      subst (λ (x : S × OStream). Called s x.0) (ok-injective f) (run_terminate-Called id args s p)

  run_once-Called :
      (input : IStream) (s : S) (out : OStream) {r : S × IStream × OStream}
      → run_once c b input s out ≡ ok r
      → Called s r.0
  unfolding run_once run
  run_once-Called input s out e =
      let ((command, input'), _, f) = >>=-eq-ok (recv_command c input) _ e in
      let ((s', out'), p, g) =
        >>=-eq-ok (run_type c b command.type command.id command.args s out) _ f in
      subst (λ (x : S × IStream × OStream). Called s x.0) (ok-injective g)
        (run_type-Called command.type command.id command.args s out p)

  module _ (P : S → Type 0)
      (keep : (call : Call) (s s' : S) (r : Option BrokerResult)
        → exec b call s ≡ ok (r, s')
        → P s
        → P s') where
    -- What every method that returns keeps holds of the broker whenever the server reads a command.
    pub serve_keeps :
        (fuel : ℕ) (input : IStream) (s : S) (out : OStream)
        → P s
        → P (serve c b fuel input s out).state
    unfolding serve
    serve_keeps zero input s out h = h
    serve_keeps (suc fuel) input s out h = elim (Result-cases (run_once c b input s out)) [
      | inl (e, p) ↦ rw (p, serve) h
      | inr ((s', input', out'), p) ↦
          let (call, r, done) = run_once-Called input s out p in
          rw (p, serve) (serve_keeps fuel input' s' out' (keep call s s' r done h))
    ]
