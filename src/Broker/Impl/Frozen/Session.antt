-- ===== src/Broker/Impl/Frozen/Session.antt =====
-- The processes of the solutions from the constructor of src/lib/BrokerImpl.cpp to the end of
-- src/bin/broker.cpp.
use deprecated_yandex_contes.Base.{
  All-of_map, All, ℕ, ◌+◌, Bool, false, not, List, [], ◌∷◌, ◌++◌, Option, none, Bytes, map, length,
  Result, ok, >>=-eq-ok, assert-ok, ok-injective, ◌≡◌, ◌⊎◌, inl, inr, arith, refl, sym, ap, subst,
}
use deprecated_yandex_contes.Tokenizer.{Status, TokenizerLibrary, instance_of}
use deprecated_yandex_contes.Text.Streams.{IStream, OStream}
use deprecated_yandex_contes.Killer.{
  KillerOps, KillerStatus, ok_status, error_status, protected_status,
}
use deprecated_yandex_contes.Broker.Types.{Casts, BrokerResult, ResourceLimits}
use deprecated_yandex_contes.Broker.Interface.{
  Call, begin_with, begin_as, begin, send, end_with, end, terminate, serve,
}
use deprecated_yandex_contes.Broker.Interface.Calls.{exec}
use deprecated_yandex_contes.Broker.Interface.Keeps.{serve_keeps}
use deprecated_yandex_contes.Broker.State.{
  Process, Solution, Options, EndEnv, BrokerImpl, new_solution, solution, put_solution, is_null,
}
use deprecated_yandex_contes.Broker.State
use deprecated_yandex_contes.Broker.Impl.{
  is_protected, impl, scan_outbuf, setup_from, new_broker, end_in,
}
use deprecated_yandex_contes.Broker.Impl
use deprecated_yandex_contes.Broker.Impl.Frame.{end-end_in}
use deprecated_yandex_contes.Broker.Impl.Frozen.{end_in-Frozen, terminate-Frozen}
use deprecated_yandex_contes.Broker.Impl.Fresh.{
  setup_from-cons, next_id, limited, construct-setup_from, new_broker-construct,
}
use deprecated_yandex_contes.Broker.Descriptors.{Fcntl}

All-map :
    {A : Type 0} (P Q : A → Type 0) → ((a : A) → P a → Q a) → (xs : List A) → All P xs → All Q xs
All-map P Q f [] h = tt
All-map P Q f (x ∷ xs) (p, h) = (f x p, All-map P Q f xs h)

module _ {I T K : Type 0} (lib : TokenizerLibrary T) where
  begin_with-killer :
      (id : ℕ) (argument : Bytes) (limits : ResourceLimits) (b : BrokerImpl I T K)
      {b' : BrokerImpl I T K}
      → Impl.begin_with lib id argument limits b ≡ ok b'
      → b'.killer ≡ b.killer
  unfolding Impl.begin_with put_solution
  begin_with-killer id argument limits b e =
      let (sol, _, f) = >>=-eq-ok (solution id b) _ e in
      let (_, g) = assert-ok (is_null sol.tokenizer) f in
      let (t, _, h) = >>=-eq-ok (instance_of lib argument) _ g in
      let (sol', _, i) = >>=-eq-ok (scan_outbuf lib t _ sol.outbuf) _ h in
      ap (λ (x : BrokerImpl I T K). x.killer) (sym (ok-injective i))

module _ {I T K : Type 0} where
  send-killer :
      (id : ℕ) (msg : Bytes) (b : BrokerImpl I T K) {b' : BrokerImpl I T K}
      → State.send id msg b ≡ ok b'
      → b'.killer ≡ b.killer
  unfolding State.send put_solution
  send-killer id msg b e =
      let (sol, _, f) = >>=-eq-ok (solution id b) _ e in
      let (_, g) = assert-ok (not (is_null sol.tokenizer)) f in
      ap (λ (x : BrokerImpl I T K). x.killer) (sym (ok-injective g))

module _ {I T K : Type 0} (lib : TokenizerLibrary T) (killer : KillerOps I K)
    (Frozen : K → I → Type 0)
    (refreezes : (i j : I) (k k₁ k₂ : K) (s₁ s₂ : KillerStatus)
      → Frozen k j
      → killer.unfreeze i k ≡ ok (s₁, k₁)
      → killer.freeze i k₁ ≡ ok (s₂, k₂)
      → is_protected s₂ ≡ false
      → Frozen k₂ j)
    (stays_dead : (i j : I) (k k' : K) (s : KillerStatus)
      → Frozen k j
      → killer.terminate i k ≡ ok (s, k')
      → Frozen k' j) where
  end-Frozen :
      (id : ℕ) (discard : Bool) (b : BrokerImpl I T K) (j : I) {r : BrokerResult × BrokerImpl I T K}
      → Frozen b.killer j
      → Impl.end lib killer id discard b ≡ ok r
      → Frozen r.1.killer j
  end-Frozen id discard b j cold e =
      let (env, rest, f) = end-end_in lib killer b.ahead id discard b refl e in
      end_in-Frozen lib killer Frozen refreezes stays_dead env id discard
        (record b { ahead = rest }) j cold f

  unmoved :
      (b b₁ b' : BrokerImpl I T K) {r : Option BrokerResult} (j : I)
      → b₁.killer ≡ b.killer
      → ◌≡◌ {A = Result (Option BrokerResult × BrokerImpl I T K)} (ok (none, b₁)) (ok (r, b'))
      → Frozen b.killer j
      → Frozen b'.killer j
  unmoved b b₁ b' j same e cold =
      subst (λ (x : Option BrokerResult × BrokerImpl I T K). Frozen x.1.killer j) (ok-injective e)
        (subst (λ k. Frozen k j) (sym same) cold)

  exec-Frozen :
      (call : Call) (b b' : BrokerImpl I T K) (r : Option BrokerResult) (j : I)
      → exec (impl lib killer) call b ≡ ok (r, b')
      → Frozen b.killer j
      → Frozen b'.killer j
  unfolding exec Impl.begin_as Impl.begin
  exec-Frozen (begin_with id argument limits) b b' r j e cold =
      let (s, p, f) = >>=-eq-ok (Impl.begin_with lib id argument limits b) _ e in
      unmoved b s b' j (begin_with-killer lib id argument limits b p) f cold
  exec-Frozen (begin_as id argument) b b' r j e cold =
      let (s, p, f) = >>=-eq-ok (Impl.begin_with lib id argument b.default_limits b) _ e in
      unmoved b s b' j (begin_with-killer lib id argument b.default_limits b p) f cold
  exec-Frozen (begin id) b b' r j e cold =
      let (s, p, f) =
        >>=-eq-ok (Impl.begin_with lib id b.default_argument b.default_limits b) _ e in
      unmoved b s b' j (begin_with-killer lib id b.default_argument b.default_limits b p) f cold
  exec-Frozen (send id msg) b b' r j e cold =
      let (s, p, f) = >>=-eq-ok (State.send id msg b) _ e in
      unmoved b s b' j (send-killer id msg b p) f cold
  exec-Frozen (end_with id discard) b b' r j e cold =
      let (d, p, f) = >>=-eq-ok (Impl.end lib killer id discard b) _ e in
      subst (λ (x : Option BrokerResult × BrokerImpl I T K). Frozen x.1.killer j) (ok-injective f)
        (end-Frozen id discard b j cold p)
  exec-Frozen (end id) b b' r j e cold =
      let (d, p, f) = >>=-eq-ok (Impl.end lib killer id false b) _ e in
      subst (λ (x : Option BrokerResult × BrokerImpl I T K). Frozen x.1.killer j) (ok-injective f)
        (end-Frozen id false b j cold p)
  exec-Frozen (terminate id) b b' r j e cold =
      let (s, p, f) = >>=-eq-ok (Impl.terminate killer id b) _ e in
      subst (λ (x : Option BrokerResult × BrokerImpl I T K). Frozen x.1.killer j) (ok-injective f)
        (terminate-Frozen lib killer Frozen refreezes stays_dead id b j cold p)

  module _
      (freezes : (i : I) (k k' : K) (s : KillerStatus)
        → killer.freeze i k ≡ ok (s, k')
        → is_protected s ≡ false
        → Frozen k' i)
      (freeze_keeps : (i j : I) (k k' : K) (s : KillerStatus)
        → Frozen k j
        → killer.freeze i k ≡ ok (s, k')
        → Frozen k' j) where
    setup_from-kept :
        {D : Type 0} (fcntl : Fcntl D) (xs ys : List (Solution I T)) (id : ℕ) (fds : D)
        (b : BrokerImpl I T K) (j : I) {r : D × BrokerImpl I T K}
        → id ≡ length xs
        → b.solutions ≡ xs ++ ys
        → setup_from killer fcntl id (length ys) fds b ≡ ok r
        → Frozen b.killer j
        → Frozen r.1.killer j
    unfolding setup_from
    setup_from-kept {D} fcntl xs [] id fds b j here split e cold =
        subst (λ (x : D × BrokerImpl I T K). Frozen x.1.killer j) (ok-injective e) cold
    setup_from-kept fcntl xs (y ∷ ys) id fds b j here split e cold =
        let (s, k, _, _, call, _, _, _, g) =
          setup_from-cons killer fcntl xs ys y id fds b here split e in
        let y' = limited b.default_limits y in
        setup_from-kept fcntl (xs ++ y' ∷ []) ys (id + 1) _ _ j (next_id xs y' id here) refl g
          (freeze_keeps y.process.id j b.killer k s cold call)

    setup_from-Frozen :
        {D : Type 0} (fcntl : Fcntl D) (xs ys : List (Solution I T)) (id : ℕ) (fds : D)
        (b : BrokerImpl I T K) {r : D × BrokerImpl I T K}
        → id ≡ length xs
        → b.solutions ≡ xs ++ ys
        → setup_from killer fcntl id (length ys) fds b ≡ ok r
        → All (λ (y : Solution I T). Frozen r.1.killer y.process.id) ys
    setup_from-Frozen fcntl xs [] id fds b here split e = tt
    setup_from-Frozen fcntl xs (y ∷ ys) id fds b here split e =
        let (s, k, _, _, call, fine, _, _, g) =
          setup_from-cons killer fcntl xs ys y id fds b here split e in
        let y' = limited b.default_limits y in
        (
          setup_from-kept fcntl (xs ++ y' ∷ []) ys (id + 1) _ _ y.process.id (next_id xs y' id here)
              refl g (freezes y.process.id b.killer k s call fine),
          setup_from-Frozen fcntl (xs ++ y' ∷ []) ys (id + 1) _ _ (next_id xs y' id here) refl g,
        )

    -- Behind a constructor that returns, the processes of all solutions are frozen.
    pub new_broker-Frozen :
        {D : Type 0} (options : Options I) (fcntl : Fcntl D) (fds : D) (status : Status) (k : K)
        (ahead : List EndEnv) {b : BrokerImpl I T K}
        → new_broker killer options fcntl fds status k ahead ≡ ok b
        → All (λ (p : Process I). Frozen b.killer p.id) options.solutions
    new_broker-Frozen options fcntl fds status k ahead e =
        let (_, p) = new_broker-construct killer fcntl options fds status k ahead e in
        All-of_map (new_solution status) _ options.solutions (
          setup_from-Frozen fcntl [] (map (new_solution status) options.solutions) 0 fds _ refl refl
            (construct-setup_from killer fcntl options fds status k ahead p))

    serve_stays :
        {D : Type 0} (c : Casts) (options : Options I) (fcntl : Fcntl D) (fds : D) (status : Status)
        (k : K) (ahead : List EndEnv) (b : BrokerImpl I T K) (fuel : ℕ) (input : IStream)
        (out : OStream)
        → new_broker killer options fcntl fds status k ahead ≡ ok b
        → All
            (λ (p : Process I).
              Frozen (serve c (impl lib killer) fuel input b out).state.killer p.id)
            options.solutions
    serve_stays c options fcntl fds status k ahead b fuel input out e =
        All-map (λ (p : Process I). Frozen b.killer p.id) _
          (λ p.
            serve_keeps c (impl lib killer) (λ (x : BrokerImpl I T K). Frozen x.killer p.id)
              (λ call s s' r. exec-Frozen call s s' r p.id) fuel input b out)
          options.solutions (new_broker-Frozen options fcntl fds status k ahead e)

module _ {I T K : Type 0} (lib : TokenizerLibrary T) (killer : KillerOps I K)
    (Frozen Failed : K → I → Type 0) where
  -- The process is frozen, or it could not be.
  abbrev pub Stopped : K → I → Type 0
  Stopped k i = Frozen k i ⊎ Failed k i

  module _ (freezes : (i : I) (k k' : K) → killer.freeze i k ≡ ok (ok_status, k') → Frozen k' i)
      (fails : (i : I) (k k' : K) → killer.freeze i k ≡ ok (error_status, k') → Failed k' i) where
    freeze-Stopped :
        (i : I) (k k' : K) (s : KillerStatus)
        → killer.freeze i k ≡ ok (s, k')
        → is_protected s ≡ false
        → Stopped k' i
    freeze-Stopped i k k' ok_status e fine = inl (freezes i k k' e)
    freeze-Stopped i k k' error_status e fine = inr (fails i k k' e)
    freeze-Stopped i k k' protected_status e fine = absurd (ground (arith, fine))

    -- A new broker that runs the loop of broker.cpp, on any input and fuel, has behind the last
    -- call that returned each process of a solution frozen, or the killer has failed to freeze it:
    -- if a freeze that the killer answers with ok freezes the process, and one that it answers with
    -- error is such a failure; and if of each process it remains true that it is frozen or the
    -- killer has failed to freeze it, behind a freeze or a terminate of any process, and behind an
    -- unfreeze that a freeze of the same process follows, which is not refused.
    pub serve-Frozen :
        (refreezes : (i j : I) (k k₁ k₂ : K) (s₁ s₂ : KillerStatus)
          → Stopped k j
          → killer.unfreeze i k ≡ ok (s₁, k₁)
          → killer.freeze i k₁ ≡ ok (s₂, k₂)
          → is_protected s₂ ≡ false
          → Stopped k₂ j)
        (stays_dead : (i j : I) (k k' : K) (s : KillerStatus)
          → Stopped k j
          → killer.terminate i k ≡ ok (s, k')
          → Stopped k' j)
        (freeze_keeps : (i j : I) (k k' : K) (s : KillerStatus)
          → Stopped k j
          → killer.freeze i k ≡ ok (s, k')
          → Stopped k' j)
        {D : Type 0} (c : Casts) (options : Options I) (fcntl : Fcntl D) (fds : D) (status : Status)
        (k : K) (ahead : List EndEnv) (b : BrokerImpl I T K) (fuel : ℕ) (input : IStream)
        (out : OStream)
        → new_broker killer options fcntl fds status k ahead ≡ ok b
        → All
            (λ (p : Process I).
              Stopped (serve c (impl lib killer) fuel input b out).state.killer p.id)
            options.solutions
    serve-Frozen refreezes stays_dead freeze_keeps =
        serve_stays lib killer Stopped refreezes stays_dead freeze-Stopped freeze_keeps
