-- ===== src/Broker/Impl/Balance/Others.antt =====
-- A call for one solution moves no byte of another one.
use deprecated_yandex_contes.Base.{
  ℕ, Bool, false, not, Option, Bytes, Result, ok, >>=-eq-ok, assert-ok, ok-injective, Bool-cases,
  ◌≡◌, ◌≢◌, refl, sym, ap, subst, ◌∙◌, inl, inr,
}
use deprecated_yandex_contes.Tokenizer.{TokenizerLibrary, instance_of}
use deprecated_yandex_contes.Killer.{KillerOps}
use deprecated_yandex_contes.Broker.Types.{ResourceLimits, BrokerResult, ResultStatus}
use deprecated_yandex_contes.Broker.Interface.{
  Call, begin_with, begin_as, begin, send, end_with, end, terminate,
}
use deprecated_yandex_contes.Broker.Interface.Calls.{exec, call_id}
use deprecated_yandex_contes.Broker.Communicate.{is_continue}
use deprecated_yandex_contes.Broker.State.{
  Solution, EndEnv, BrokerImpl, Traffic, is_null, solution, put_solution, reset,
}
use deprecated_yandex_contes.Broker.State
use deprecated_yandex_contes.Broker.Impl.{scan_outbuf, talk, conclude, verdict, end_in, is_ok, impl}
use deprecated_yandex_contes.Broker.Impl
use deprecated_yandex_contes.Broker.Impl.Frame.{solution-ok, end-end_in}
use deprecated_yandex_contes.Broker.Impl.Flow.{moved_of, moved_of_other, flow_of, talk-calls}

module _ {I T K : Type 0} where
  reset-traffic :
      (id : ℕ) (b : BrokerImpl I T K) {b' : BrokerImpl I T K}
      → reset id b ≡ ok b'
      → b'.traffic ≡ b.traffic
  unfolding reset put_solution
  reset-traffic id b e =
      let (sol, _, f) = >>=-eq-ok (solution id b) _ e in
      ap (λ (x : BrokerImpl I T K). x.traffic) (sym (ok-injective f))

  pub send-traffic :
      (id : ℕ) (msg : Bytes) (b : BrokerImpl I T K) {b' : BrokerImpl I T K}
      → State.send id msg b ≡ ok b'
      → b'.traffic ≡ b.traffic
  unfolding State.send put_solution
  send-traffic id msg b e =
      let (sol, _, f) = >>=-eq-ok (solution id b) _ e in
      let (_, g) = assert-ok (not (is_null sol.tokenizer)) f in
      ap (λ (x : BrokerImpl I T K). x.traffic) (sym (ok-injective g))

  pub begin_with-traffic :
      (lib : TokenizerLibrary T) (id : ℕ) (argument : Bytes) (limits : ResourceLimits)
      (b : BrokerImpl I T K) {b' : BrokerImpl I T K}
      → Impl.begin_with lib id argument limits b ≡ ok b'
      → b'.traffic ≡ b.traffic
  unfolding Impl.begin_with put_solution
  begin_with-traffic lib id argument limits b e =
      let (sol, _, f) = >>=-eq-ok (solution id b) _ e in
      let (_, g) = assert-ok (is_null sol.tokenizer) f in
      let (t, _, h) = >>=-eq-ok (instance_of lib argument) _ g in
      let (sol', _, i) = >>=-eq-ok (scan_outbuf lib t _ sol.outbuf) _ h in
      ap (λ (x : BrokerImpl I T K). x.traffic) (sym (ok-injective i))

module _ {I T K : Type 0} (killer : KillerOps I K) where
  terminate-traffic :
      (id : ℕ) (b : BrokerImpl I T K) {b' : BrokerImpl I T K}
      → Impl.terminate killer id b ≡ ok b'
      → b'.traffic ≡ b.traffic
  unfolding Impl.terminate put_solution
  terminate-traffic id b e =
      let (sol, _, f) = >>=-eq-ok (solution id b) _ e in
      let ((_, k), _, g) = >>=-eq-ok (killer.terminate sol.process.id b.killer) _ f in
      ap (λ (x : BrokerImpl I T K). x.traffic) (sym (ok-injective g))

  pub conclude-traffic :
      (lib : TokenizerLibrary T) (id : ℕ) (discard : Bool) (s : ResultStatus) (b : BrokerImpl I T K)
      {r : BrokerResult × BrokerImpl I T K}
      → conclude lib killer id discard s b ≡ ok r
      → r.1.traffic ≡ b.traffic
  unfolding conclude put_solution
  conclude-traffic lib id discard s b {r} e =
      let (sol, _, f) = >>=-eq-ok (solution id b) _ e in
      elim (Bool-cases (is_ok s)) [
        | inl c ↦
            let (b', p, h) = >>=-eq-ok (reset id _) _ (rw c at f) in
            ap (λ (x : BrokerResult × BrokerImpl I T K). x.1.traffic) (sym (ok-injective h))
            ∙ reset-traffic id _ p
        | inr d ↦
            let (b₁, p, h) = >>=-eq-ok (Impl.terminate killer id _) _ (rw d at f) in
            let (b₂, q, k) = >>=-eq-ok (reset id b₁) _ h in
            ap (λ (x : BrokerResult × BrokerImpl I T K). x.1.traffic) (sym (ok-injective k))
            ∙ reset-traffic id b₁ q
            ∙ terminate-traffic id _ p
      ]

module _ {I T K : Type 0} (lib : TokenizerLibrary T) (killer : KillerOps I K)
    (bytes : Traffic → Bytes) (j : ℕ) where
  abbrev StaysMoved : BrokerImpl I T K → BrokerImpl I T K → Type 0
  StaysMoved b b' = moved_of bytes j b'.traffic ≡ moved_of bytes j b.traffic

  pub end_in-StaysMoved :
      (env : EndEnv) (id : ℕ) (discard : Bool) (b : BrokerImpl I T K)
      {r : BrokerResult × BrokerImpl I T K}
      → id ≢ j
      → end_in lib killer env id discard b ≡ ok r
      → StaysMoved b r.1
  unfolding end_in put_solution
  end_in-StaysMoved env id discard b ne e =
      let (sol, at, f) = >>=-eq-ok (solution id b) _ e in
      let (_, g) = assert-ok (not (is_null sol.tokenizer)) f in
      elim (Bool-cases (is_continue sol.tokenizer_status)) [
        | inl c ↦
            let ((s, b'), p, h) = >>=-eq-ok (talk lib killer id env.environment b) _ (rw c at g) in
            let (sol', _, comm, _, _, done, _) =
              talk-calls lib killer id env.environment b sol (solution-ok id b at) p in
            ap (moved_of bytes j) (conclude-traffic killer lib id discard s b' h)
            ∙ ap (λ (x : BrokerImpl I T K). moved_of bytes j x.traffic) done
            ∙ moved_of_other bytes j (flow_of id comm) b.traffic ne
        | inr d ↦
            ap (moved_of bytes j)
              (conclude-traffic killer lib id discard env.uninitialised b (rw d at g))
      ]

  end-StaysMoved :
      (id : ℕ) (discard : Bool) (b : BrokerImpl I T K) {r : BrokerResult × BrokerImpl I T K}
      → id ≢ j
      → Impl.end lib killer id discard b ≡ ok r
      → StaysMoved b r.1
  end-StaysMoved id discard b ne e =
      let (env, rest, f) = end-end_in lib killer b.ahead id discard b refl e in
      end_in-StaysMoved env id discard (record b { ahead = rest }) ne f

  stays :
      (b b₁ b' : BrokerImpl I T K) {r₁ r : Option BrokerResult}
      → StaysMoved b b₁
      → ◌≡◌ {A = Result (Option BrokerResult × BrokerImpl I T K)} (ok (r₁, b₁)) (ok (r, b'))
      → StaysMoved b b'
  stays b b₁ b' same e =
      subst (λ (x : Option BrokerResult × BrokerImpl I T K). StaysMoved b x.1) (ok-injective e) same

  pub exec-StaysMoved :
      (call : Call) (b : BrokerImpl I T K) {r : Option BrokerResult} {b' : BrokerImpl I T K}
      → call_id call ≢ j
      → exec (impl lib killer) call b ≡ ok (r, b')
      → StaysMoved b b'
  unfolding exec Impl.begin_as Impl.begin
  exec-StaysMoved (begin_with id argument limits) b {r} {b'} ne e =
      let (b₁, p, f) = >>=-eq-ok (Impl.begin_with lib id argument limits b) _ e in
      stays b b₁ b' (ap (moved_of bytes j) (begin_with-traffic lib id argument limits b p)) f
  exec-StaysMoved (begin_as id argument) b {r} {b'} ne e =
      let (b₁, p, f) = >>=-eq-ok (Impl.begin_with lib id argument b.default_limits b) _ e in
      stays b b₁ b'
        (ap (moved_of bytes j) (begin_with-traffic lib id argument b.default_limits b p)) f
  exec-StaysMoved (begin id) b {r} {b'} ne e =
      let (b₁, p, f) =
        >>=-eq-ok (Impl.begin_with lib id b.default_argument b.default_limits b) _ e in
      stays b b₁ b'
        (ap (moved_of bytes j) (begin_with-traffic lib id b.default_argument b.default_limits b p))
        f
  exec-StaysMoved (send id msg) b {r} {b'} ne e =
      let (b₁, p, f) = >>=-eq-ok (State.send id msg b) _ e in
      stays b b₁ b' (ap (moved_of bytes j) (send-traffic id msg b p)) f
  exec-StaysMoved (end_with id discard) b {r} {b'} ne e =
      let (d, p, f) = >>=-eq-ok (Impl.end lib killer id discard b) _ e in
      stays b d.1 b' (end-StaysMoved id discard b ne p) f
  exec-StaysMoved (end id) b {r} {b'} ne e =
      let (d, p, f) = >>=-eq-ok (Impl.end lib killer id false b) _ e in
      stays b d.1 b' (end-StaysMoved id false b ne p) f
  exec-StaysMoved (terminate id) b {r} {b'} ne e =
      let (b₁, p, f) = >>=-eq-ok (Impl.terminate killer id b) _ e in
      stays b b₁ b' (ap (moved_of bytes j) (terminate-traffic killer id b p)) f
