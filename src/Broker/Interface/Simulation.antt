-- ===== src/Broker/Interface/Simulation.antt =====
-- The server of src/lib/BrokerInterface.cpp and the loop of src/bin/broker.cpp with two brokers whose
-- methods answer alike.
use deprecated_yandex_contes.Base.{
  ℕ, zero, suc, Bool, List, [], ◌∷◌, Bytes, Result, ok, err, or_throw, bad_lexical_cast, false, ap,
  ◌≡◌, refl,
}
use deprecated_yandex_contes.Base.Simulation.{Sim, Pair, >>=-Sim, >>=-Pair, Sim-same}
use deprecated_yandex_contes.Text.Streams.{IStream, OStream}
use deprecated_yandex_contes.Text.Archive.{recv_command, send_result}
use deprecated_yandex_contes.Broker.Types.{
  Casts, CommandType, begin_type, send_type, end_type, terminate_type, ResourceLimits,
}
use deprecated_yandex_contes.Broker.Interface.{
  BrokerOps, run_begin, run_send, run_end, run_terminate, run_type, run, run_once, Served, exit_of,
  serve,
}

-- Each method leads from related states to related ones with the same result, or fails in both.
pub record Similar {S S' : Type 0} (R : S → S' → Type 0) (b : BrokerOps S) (b' : BrokerOps S')
    : Type 0 where
  pub begin_with :
      (id : ℕ) (argument : Bytes) (limits : ResourceLimits) (s : S) (s' : S')
      → R s s'
      → Sim R (b.begin_with id argument limits s) (b'.begin_with id argument limits s')
  pub begin_as :
      (id : ℕ) (argument : Bytes) (s : S) (s' : S')
      → R s s'
      → Sim R (b.begin_as id argument s) (b'.begin_as id argument s')
  pub begin : (id : ℕ) (s : S) (s' : S') → R s s' → Sim R (b.begin id s) (b'.begin id s')
  pub send :
      (id : ℕ) (msg : Bytes) (s : S) (s' : S')
      → R s s'
      → Sim R (b.send id msg s) (b'.send id msg s')
  pub end :
      (id : ℕ) (discard : Bool) (s : S) (s' : S')
      → R s s'
      → Sim (Pair R) (b.end id discard s) (b'.end id discard s')
  pub terminate :
      (id : ℕ) (s : S) (s' : S') → R s s' → Sim R (b.terminate id s) (b'.terminate id s')

module _ {S S' : Type 0} (R : S → S' → Type 0) where
  -- The same end and the same output, with related states.
  abbrev pub Ends : Served S → Served S' → Type 0
  Ends x y = (x.exit ≡ y.exit) × (x.output ≡ y.output) × R x.state y.state

module _ {S S' : Type 0} (R : S → S' → Type 0) (c : Casts) (b : BrokerOps S) (b' : BrokerOps S')
    (similar : Similar R b b') where
  run_begin-Sim :
      (id : ℕ) (args : List Bytes) (s : S) (s' : S')
      → R s s'
      → Sim R (run_begin c b id args s) (run_begin c b' id args s')
  unfolding run_begin
  run_begin-Sim id [] s s' r = similar.begin id s s' r
  run_begin-Sim id (a ∷ []) s s' r = similar.begin_as id a s s' r
  run_begin-Sim id (a ∷ user ∷ real ∷ []) s s' r =
      Sim-same R (or_throw (c.millis_cast.from_string user) bad_lexical_cast) _ _ λ u.
        Sim-same R (or_throw (c.millis_cast.from_string real) bad_lexical_cast) _ _
          λ t. similar.begin_with id a (record { user_time_limit = u; real_time_limit = t }) s s' r
  run_begin-Sim id (_ ∷ _ ∷ []) s s' r = refl
  run_begin-Sim id (_ ∷ _ ∷ _ ∷ _ ∷ _) s s' r = refl

  run_end-Sim :
      (id : ℕ) (args : List Bytes) (s : S) (s' : S')
      → R s s'
      → Sim (Pair R) (run_end c b id args s) (run_end c b' id args s')
  unfolding run_end
  run_end-Sim id [] s s' r = similar.end id false s s' r
  run_end-Sim id (d ∷ []) s s' r =
      Sim-same (Pair R) (or_throw (c.bool_cast.from_string d) bad_lexical_cast) _ _
        λ discard. similar.end id discard s s' r
  run_end-Sim id (_ ∷ _ ∷ _) s s' r = refl

  run_send-Sim :
      (id : ℕ) (args : List Bytes) (s : S) (s' : S')
      → R s s'
      → Sim R (run_send c b id args s) (run_send c b' id args s')
  unfolding run_send
  run_send-Sim id [] s s' r = refl
  run_send-Sim id (msg ∷ []) s s' r = similar.send id msg s s' r
  run_send-Sim id (_ ∷ _ ∷ _) s s' r = refl

  run_terminate-Sim :
      (id : ℕ) (args : List Bytes) (s : S) (s' : S')
      → R s s'
      → Sim R (run_terminate c b id args s) (run_terminate c b' id args s')
  unfolding run_terminate
  run_terminate-Sim id [] s s' r = similar.terminate id s s' r
  run_terminate-Sim id (_ ∷ _) s s' r = refl

  -- Related states, and the same output behind them.
  abbrev Out : S × OStream → S' × OStream → Type 0
  Out (s, o) (s', o') = R s s' × (o ≡ o')

  run_type-Sim :
      (type : CommandType) (id : ℕ) (args : List Bytes) (s : S) (s' : S') (out : OStream)
      → R s s'
      → Sim Out (run_type c b type id args s out) (run_type c b' type id args s' out)
  unfolding run_type
  run_type-Sim begin_type id args s s' out r =
      >>=-Sim R Out (run_begin c b id args s) (run_begin c b' id args s') _ _
        (run_begin-Sim id args s s' r) λ t t' q. (q, refl)
  run_type-Sim send_type id args s s' out r =
      >>=-Sim R Out (run_send c b id args s) (run_send c b' id args s') _ _
        (run_send-Sim id args s s' r) λ t t' q. (q, refl)
  run_type-Sim end_type id args s s' out r =
      >>=-Pair R Out (run_end c b id args s) (run_end c b' id args s') _ _
        (run_end-Sim id args s s' r)
        λ result t t' q. Sim-same Out (send_result c result out) _ _ λ out'. (q, refl)
  run_type-Sim terminate_type id args s s' out r =
      >>=-Sim R Out (run_terminate c b id args s) (run_terminate c b' id args s') _ _
        (run_terminate-Sim id args s s' r) λ t t' q. (q, refl)

  abbrev Rest : S × IStream × OStream → S' × IStream × OStream → Type 0
  Rest (s, i, o) (s', i', o') = R s s' × (i ≡ i') × (o ≡ o')

  run_once-Sim :
      (input : IStream) (s : S) (s' : S') (out : OStream)
      → R s s'
      → Sim Rest (run_once c b input s out) (run_once c b' input s' out)
  unfolding run_once run
  run_once-Sim input s s' out r = Sim-same Rest (recv_command c input) _ _ λ received.
      let command = received.0 in
      >>=-Sim Out Rest (run_type c b command.type command.id command.args s out)
        (run_type c b' command.type command.id command.args s' out) _ _
        (run_type-Sim command.type command.id command.args s s' out r)
        λ x y both. (both.0, refl, both.1)

  step-Ends :
      (s : S) (s' : S') (out : OStream) (f : S × IStream × OStream → Served S)
      (g : S' × IStream × OStream → Served S') (m : Result (S × IStream × OStream))
      (n : Result (S' × IStream × OStream))
      → R s s'
      → Sim Rest m n
      → ((i : IStream) (o : OStream) (t : S) (t' : S')
          → R t t'
          → Ends R (f (t, i, o)) (g (t', i, o)))
      → Ends R
          (elim m [ ok x ↦ f x | err e ↦ record { exit = exit_of e; state = s; output = out } ])
          (elim n [ ok x ↦ g x | err e ↦ record { exit = exit_of e; state = s'; output = out } ])
  step-Ends s s' out f g (ok (t, i, o)) (ok (t', i', o')) r (q, same_in, same_out) next =
      rw (same_in, same_out) (next i' o' t t' q)
  step-Ends s s' out f g (ok x) (err e) r apart next = absurd apart
  step-Ends s s' out f g (err e) (ok x) r apart next = absurd apart
  step-Ends s s' out f g (err e) (err d) r same next = (ap exit_of same, refl, r)

  pub serve-Ends :
      (fuel : ℕ) (input : IStream) (s : S) (s' : S') (out : OStream)
      → R s s'
      → Ends R (serve c b fuel input s out) (serve c b' fuel input s' out)
  unfolding serve
  serve-Ends zero input s s' out r = (refl, refl, r)
  serve-Ends (suc fuel) input s s' out r =
      step-Ends s s' out (λ x. serve c b fuel x.1 x.0 x.2) (λ x. serve c b' fuel x.1 x.0 x.2)
        (run_once c b input s out) (run_once c b' input s' out) r (run_once-Sim input s s' out r)
        (λ i o t t' q. serve-Ends fuel i t t' o q)
