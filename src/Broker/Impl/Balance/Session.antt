-- ===== src/Broker/Impl/Balance/Session.antt =====
-- The bytes of a solution over a whole session with the judge.
use deprecated_yandex_contes.Base.{
  get_elem?-lt, get_elem?-map, ℕ, ◌<◌, Bool, false, List, [], ◌∷◌, ◌++◌, Option, none, some, Bytes,
  length, map, get_elem?, get_elem?-set_ne, if◌then◌else◌, All, Result, Result-cases, ok, >>=-eq-ok,
  ok-injective, Bool-cases, ◌==◌, ◌≡◌, ◌≢◌, refl, sym, ap, subst, ◌∙◌, inl, inr, arith, append-nil,
  append_assoc,
}
use deprecated_yandex_contes.Text.Streams.{OStream}
use deprecated_yandex_contes.Tokenizer.{TokenizerLibrary, Status}
use deprecated_yandex_contes.Killer.{KillerOps}
use deprecated_yandex_contes.Broker.Types.{Casts, IsExact, BrokerResult, ok_status}
use deprecated_yandex_contes.Broker.Interface.{
  Call, begin_with, begin_as, begin, send, end_with, end, terminate, Served, serve,
}
use deprecated_yandex_contes.Broker.Interface.Calls.{exec, call_id, Fits}
use deprecated_yandex_contes.Broker.Interface.Session.{script, serve-script}
use deprecated_yandex_contes.Broker.Interface.History.{
  history, session-history, replies, message_of, payload_of, sent_to, paid_by, Spares, DropsNone,
}
use deprecated_yandex_contes.Broker.State.{
  Options, Process, EndEnv, BrokerImpl, Traffic, new_solution,
}
use deprecated_yandex_contes.Broker.State
use deprecated_yandex_contes.Broker.Impl.{impl, new_broker}
use deprecated_yandex_contes.Broker.Impl
use deprecated_yandex_contes.Broker.Impl.Frame.{end-end_in}
use deprecated_yandex_contes.Broker.Impl.Fresh.{new_broker-start, limited}
use deprecated_yandex_contes.Broker.Descriptors.{Fcntl}
use deprecated_yandex_contes.Broker.Impl.Flow.{taken_of, delivered_of}
use deprecated_yandex_contes.Broker.Impl.Protocol.{exec-Follows}
use deprecated_yandex_contes.Broker.Impl.Balance.{Books, begin_with-Books, send-Books, end_in-Books}
use deprecated_yandex_contes.Broker.Impl.Balance.Buffers.{Held}
use deprecated_yandex_contes.Broker.Impl.Balance.Others.{exec-StaysMoved}

module _ {I T K : Type 0} (lib : TokenizerLibrary T) (killer : KillerOps I K) where
  end-Books :
      (id : ℕ) (discard : Bool) (sent paid : Bytes) (b : BrokerImpl I T K)
      {r : BrokerResult × BrokerImpl I T K}
      → Books id sent paid b
      → discard ≡ false
      → Impl.end lib killer id discard b ≡ ok r
      → r.0.status ≡ ok_status
      → Books id sent (paid ++ r.0.payload) r.1
  end-Books id discard sent paid b {r} books keeps e good =
      let (env, rest, f) = end-end_in lib killer b.ahead id discard b refl e in
      end_in-Books id lib killer env sent paid (record b { ahead = rest }) books (rw keeps at f)
        good

  -- What a call adds to the books of its solution.
  abbrev Entered : Call → Bytes → Bytes → Option BrokerResult → BrokerImpl I T K → Type 0
  Entered call sent paid r b =
      Books (call_id call) (sent ++ message_of call) (paid ++ payload_of r) b

  entered :
      (call : Call) (sent paid : Bytes) (r r' : Option BrokerResult) (b b' : BrokerImpl I T K)
      → ◌≡◌ {A = Result (Option BrokerResult × BrokerImpl I T K)} (ok (r, b)) (ok (r', b'))
      → Entered call sent paid r b
      → Entered call sent paid r' b'
  entered call sent paid r r' b b' e h =
      subst (λ (x : Option BrokerResult × BrokerImpl I T K). Entered call sent paid x.0 x.1)
        (ok-injective e) h

  -- An entry of nothing.
  unchanged :
      (id : ℕ) (sent paid : Bytes) (b : BrokerImpl I T K)
      → Books id sent paid b
      → Books id (sent ++ []) (paid ++ []) b
  unchanged id sent paid b h = rw (append-nil sent, append-nil paid) h

  exec-Entered :
      (call : Call) (sent paid : Bytes) (b : BrokerImpl I T K) (r : Option BrokerResult)
      (b' : BrokerImpl I T K)
      → Books (call_id call) sent paid b
      → DropsNone call r
      → exec (impl lib killer) call b ≡ ok (r, b')
      → Entered call sent paid r b'
  unfolding exec Impl.begin_as Impl.begin
  exec-Entered (begin_with id argument limits) sent paid b r b' books spare e =
      let (b₁, p, f) = >>=-eq-ok (Impl.begin_with lib id argument limits b) _ e in
      entered (begin_with id argument limits) sent paid none r b₁ b' f
        (unchanged id sent paid b₁ (begin_with-Books id lib argument limits sent paid b books p))
  exec-Entered (begin_as id argument) sent paid b r b' books spare e =
      let (b₁, p, f) = >>=-eq-ok (Impl.begin_with lib id argument b.default_limits b) _ e in
      entered (begin_as id argument) sent paid none r b₁ b' f
        (unchanged id sent paid b₁ (begin_with-Books id lib argument _ sent paid b books p))
  exec-Entered (begin id) sent paid b r b' books spare e =
      let (b₁, p, f) =
        >>=-eq-ok (Impl.begin_with lib id b.default_argument b.default_limits b) _ e in
      entered (begin id) sent paid none r b₁ b' f
        (unchanged id sent paid b₁ (begin_with-Books id lib _ _ sent paid b books p))
  exec-Entered (send id msg) sent paid b r b' books spare e =
      let (b₁, p, f) = >>=-eq-ok (State.send id msg b) _ e in
      entered (send id msg) sent paid none r b₁ b' f (
        subst (λ x. Books id (sent ++ msg) x b₁) (sym (append-nil paid))
          (send-Books id msg sent paid b books p))
  exec-Entered (end_with id discard) sent paid b r b' books spare e =
      let ((a, b₁), p, f) = >>=-eq-ok (Impl.end lib killer id discard b) _ e in
      let (keeps, good) =
        subst (λ (x : Option BrokerResult × BrokerImpl I T K). DropsNone (end_with id discard) x.0)
          (sym (ok-injective f)) spare in
      entered (end_with id discard) sent paid (some a) r b₁ b' f (
        subst (λ x. Books id x (paid ++ a.payload) b₁) (sym (append-nil sent))
          (end-Books id discard sent paid b books keeps p good))
  exec-Entered (end id) sent paid b r b' books spare e =
      let ((a, b₁), p, f) = >>=-eq-ok (Impl.end lib killer id false b) _ e in
      let good =
        subst (λ (x : Option BrokerResult × BrokerImpl I T K). DropsNone (end id) x.0)
          (sym (ok-injective f)) spare in
      entered (end id) sent paid (some a) r b₁ b' f (
        subst (λ x. Books id x (paid ++ a.payload) b₁) (sym (append-nil sent))
          (end-Books id false sent paid b books refl p good))
  exec-Entered (terminate id) sent paid b r b' books spare e = absurd spare

  -- A call for another solution leaves the books as they are.
  exec_other-Books :
      (id : ℕ) (call : Call) (sent paid : Bytes) (b : BrokerImpl I T K) (r : Option BrokerResult)
      (b' : BrokerImpl I T K)
      → call_id call ≢ id
      → Books id sent paid b
      → exec (impl lib killer) call b ≡ ok (r, b')
      → Books id sent paid b'
  exec_other-Books id call sent paid b r b' ne (sol, at, owed, held) e =
      let (_, new, _, _, _, same) = exec-Follows lib killer call b e in
      let out = exec-StaysMoved lib killer (λ t. t.delivered) id call b ne e in
      let back = exec-StaysMoved lib killer (λ t. t.taken) id call b ne e in
      (
        sol,
        ap (λ x. get_elem? x id) same ∙ get_elem?-set_ne b.solutions new ne ∙ at,
        owed ∙ ap (λ x. x ++ sol.inbuf) (sym out),
        subst (λ x. Held paid x sol) (sym back) held,
      )

  exec-Books :
      (id : ℕ) (call : Call) (sent paid : Bytes) (b : BrokerImpl I T K) (r : Option BrokerResult)
      (b' : BrokerImpl I T K)
      → Books id sent paid b
      → Spares id (call, r)
      → exec (impl lib killer) call b ≡ ok (r, b')
      → Books id
          (sent ++ (if call_id call == id then message_of call else []))
          (paid ++ (if call_id call == id then payload_of r else []))
          b'
  exec-Books id call sent paid b r b' books spare e = elim (Bool-cases (call_id call == id)) [
    | inl self ↦
        let here : call_id call ≡ id = ground arith in
        rw self (
          subst (λ i. Books i (sent ++ message_of call) (paid ++ payload_of r) b') here
            (exec-Entered call sent paid b r b' (subst (λ i. Books i sent paid b) (sym here) books)
              (spare here) e))
    | inr other ↦
        let ne : call_id call ≢ id = ground arith in
        rw other (unchanged id sent paid b' (exec_other-Books id call sent paid b r b' ne books e))
  ]

  history-Books :
      (id : ℕ) (calls : List Call) (sent paid : Bytes) (b : BrokerImpl I T K)
      → Books id sent paid b
      → All (Spares id) (history (impl lib killer) calls b).0
      → let (past, last) = history (impl lib killer) calls b in
        Books id (sent ++ sent_to id past) (paid ++ paid_by id past) last
  unfolding history
  history-Books id [] sent paid b books spare = unchanged id sent paid b books
  history-Books id (call ∷ calls) sent paid b books spare =
      elim (Result-cases (exec (impl lib killer) call b)) [
        | inl (e, p) ↦ rw (p, history) (unchanged id sent paid b books)
        | inr ((r, b₁), p) ↦
            let (now, later) = rw (p, history) at spare in
            let past = (history (impl lib killer) calls b₁).0 in
            rw
              (
                p,
                history,
                ← append_assoc sent (if call_id call == id then message_of call else [])
                    (sent_to id past),
                ← append_assoc paid (if call_id call == id then payload_of r else [])
                    (paid_by id past),
              )
              (history-Books id calls _ _ b₁ (exec-Books id call sent paid b r b₁ books now p)
                later)
      ]

  new_broker-Books :
      {D : Type 0} (options : Options I) (fcntl : Fcntl D) (fds : D) (status : Status) (k : K)
      (ahead : List EndEnv) (id : ℕ) {b : BrokerImpl I T K}
      → new_broker killer options fcntl fds status k ahead ≡ ok b
      → id < length options.solutions
      → Books id [] [] b
  new_broker-Books options fcntl fds status k ahead id {b} e h =
      let (p, at) = get_elem?-lt options.solutions id h in
      let sol = limited options.default_limits (new_solution {I = I} {T = T} status p) in
      let (sols, still, _) = new_broker-start killer fcntl options fds status k ahead e in
      (
        sol,
        ap (λ l. get_elem? l id) sols
            ∙ get_elem?-map (limited options.default_limits)
                (map (new_solution status) options.solutions) id
                (get_elem?-map (new_solution status) options.solutions id at),
        ap (delivered_of id) (sym still) ∙ sym (append-nil (delivered_of id b.traffic)),
        ap (taken_of id) still,
      )

  -- The loop of broker.cpp over a new broker, fed the lines of a list of calls whose numbers fit
  -- and given more fuel than calls, writes the replies to the calls up to the first that fails. If
  -- of these calls none terminates the solution at hand, none of its ends discards what is sent,
  -- and each of its ends returns the status ok, then all messages sent to it are, in order, the
  -- bytes that its input has taken and those in its buffer; and all bytes read from it are, in
  -- order, the payloads returned and what it holds, which within an iteration is the result and the
  -- output behind it, unless the tokenizer has failed, and outside of one that output alone. The
  -- casts are exact.
  pub serve-Books :
      {D : Type 0} (c : Casts) (exact : IsExact c) (options : Options I) (fcntl : Fcntl D) (fds : D)
      (status : Status) (k : K) (ahead : List EndEnv) (id : ℕ) (calls : List Call) (fuel : ℕ)
      (out : OStream) (b : BrokerImpl I T K)
      → new_broker killer options fcntl fds status k ahead ≡ ok b
      → id < length options.solutions
      → All Fits calls
      → length calls < fuel
      → All (Spares id) (history (impl lib killer) calls b).0
      → let past = (history (impl lib killer) calls b).0 in
        let served =
          serve c (impl lib killer) fuel (record { rest = script c calls; broken = false }) b out in
        (served.output ≡ replies c past out)
        × Books id (sent_to id past) (paid_by id past) served.state
  serve-Books c exact options fcntl fds status k ahead id calls fuel out b e h fits enough spare =
      let ran = serve-script c exact (impl lib killer) calls fuel b out fits enough in
      let (state, output) = session-history c (impl lib killer) calls b out in
      (
        ap (λ (x : Served (BrokerImpl I T K)). x.output) ran ∙ output,
        subst (Books id _ _) (sym (ap (λ (x : Served (BrokerImpl I T K)). x.state) ran ∙ state)) (
            history-Books id calls [] [] b
              (new_broker-Books options fcntl fds status k ahead id e h) spare),
      )
