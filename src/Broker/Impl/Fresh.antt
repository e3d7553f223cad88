-- ===== src/Broker/Impl/Fresh.antt =====
-- The constructor of src/lib/BrokerImpl.cpp.
use deprecated_yandex_contes.Base.{
  subst, ℕ, suc, ◌+◌, false, List, [], ◌∷◌, ◌++◌, some, map, length, length-map, length-append,
  get_elem?, set, ok, >>=-eq-ok, ok-injective, append_assoc, ◌≡◌, refl, sym, ap, ◌∙◌, arith,
}
use deprecated_yandex_contes.Tokenizer.{Status}
use deprecated_yandex_contes.Killer.{KillerOps, KillerStatus}
use deprecated_yandex_contes.Broker.Types.{ResourceLimits}
use deprecated_yandex_contes.Broker.State.{
  Solution, Options, EndEnv, BrokerImpl, new_solution, put_solution,
}
use deprecated_yandex_contes.Broker.Descriptors.{Fcntl, setnonblock}
use deprecated_yandex_contes.Broker.Impl.{is_protected, freeze, setup_from, construct, new_broker}
use deprecated_yandex_contes.Broker.Impl.Frame.{solution_at, freeze-calls}

get_elem?-middle :
    {A : Type 0} (xs : List A) (y : A) (ys : List A) → get_elem? (xs ++ y ∷ ys) (length xs) ≡ some y
get_elem?-middle [] y ys = refl
get_elem?-middle (x ∷ xs) y ys = get_elem?-middle xs y ys

set-middle :
    {A : Type 0} (xs : List A) (y z : A) (ys : List A)
    → set (xs ++ y ∷ ys) (length xs) z ≡ xs ++ z ∷ ys
set-middle [] y z ys = refl
set-middle (x ∷ xs) y z ys = ap (◌∷◌ x) (set-middle xs y z ys)

pub next_id :
    {A : Type 0} (xs : List A) (y : A) (id : ℕ) → id ≡ length xs → id + 1 ≡ length (xs ++ y ∷ [])
next_id xs y id here = omega (arith, here, length-append xs (y ∷ []))

abbrev pub limited : {I T : Type 0} → ResourceLimits → Solution I T → Solution I T
limited limits sol = record sol { resource_limits = limits }

module _ {I T K D : Type 0} (killer : KillerOps I K) (fcntl : Fcntl D) where
  -- One round of the loop: the process at hand is frozen, its descriptors are made non-blocking, and
  -- it gets the limits.
  pub setup_from-cons :
      (xs ys : List (Solution I T)) (y : Solution I T) (id : ℕ) (fds : D) (b : BrokerImpl I T K)
      {r : D × BrokerImpl I T K}
      → id ≡ length xs
      → b.solutions ≡ xs ++ y ∷ ys
      → setup_from killer fcntl id (suc (length ys)) fds b ≡ ok r
      → (s : KillerStatus) × (k : K) × (fds₁ : D) × (fds₂ : D) × (killer.freeze y.process.id
            b.killer
          ≡ ok (s, k))
        × (is_protected s ≡ false)
        × (setnonblock fcntl y.process.ends.in_fd fds ≡ ok fds₁)
        × (setnonblock fcntl y.process.ends.out_fd fds₁ ≡ ok fds₂)
        × (setup_from killer fcntl
              (id + 1)
              (length ys)
              fds₂
              (record b { killer = k; solutions = (xs ++ limited b.default_limits y ∷ []) ++ ys })
            ≡ ok r)
  unfolding setup_from put_solution
  setup_from-cons xs ys y id fds b here split e =
      let (b₁, p, f) = >>=-eq-ok (freeze killer id b) _ e in
      let at : get_elem? b.solutions id ≡ some y = rw (split, here) (get_elem?-middle xs y ys) in
      let (s, k, call, fine, same) = freeze-calls killer id b y at p in
      let at₁ : get_elem? b₁.solutions id ≡ some y =
        ap (λ (x : BrokerImpl I T K). get_elem? x.solutions id) same ∙ at in
      let g = rw (solution_at id b₁ at₁) at f in
      let (fds₁, p₁, g₁) = >>=-eq-ok (setnonblock fcntl y.process.ends.in_fd fds) _ g in
      let (fds₂, p₂, g₂) = >>=-eq-ok (setnonblock fcntl y.process.ends.out_fd fds₁) _ g₁ in
      let y' = limited b.default_limits y in
      let put : set b.solutions id y' ≡ (xs ++ y' ∷ []) ++ ys =
        rw (split, here) (set-middle xs y y' ys ∙ sym (append_assoc xs (y' ∷ []) ys)) in
      let go = λ (x : BrokerImpl I T K). setup_from killer fcntl (id + 1) (length ys) fds₂ x in
      (
        s,
        k,
        fds₁,
        fds₂,
        call,
        fine,
        p₁,
        p₂,
        ap (λ l. go (record b { killer = k; solutions = l })) (sym put)
            ∙ ap (λ (x : BrokerImpl I T K). go (record x { solutions = set x.solutions id y' }))
                (sym same)
            ∙ g₂,
      )

  -- What each round keeps, and what it makes of the solution at hand.
  setup_from-limited :
      (xs ys : List (Solution I T)) (id : ℕ) (fds : D) (b : BrokerImpl I T K)
      {r : D × BrokerImpl I T K}
      → id ≡ length xs
      → b.solutions ≡ xs ++ ys
      → setup_from killer fcntl id (length ys) fds b ≡ ok r
      → (r.1.solutions ≡ xs ++ map (limited b.default_limits) ys)
        × (r.1.traffic ≡ b.traffic)
        × (r.1.default_argument ≡ b.default_argument)
  unfolding setup_from
  setup_from-limited xs [] id fds b here split e =
      subst
        (λ (x : D × BrokerImpl I T K).
          (x.1.solutions ≡ xs ++ [])
          × (x.1.traffic ≡ b.traffic)
          × (x.1.default_argument ≡ b.default_argument))
        (ok-injective e) (split, refl, refl)
  setup_from-limited xs (y ∷ ys) id fds b here split e =
      let (_, _, _, _, _, _, _, _, g) = setup_from-cons xs ys y id fds b here split e in
      let y' = limited b.default_limits y in
      let (sols, traffic, argument) =
        setup_from-limited (xs ++ y' ∷ []) ys (id + 1) _ _ (next_id xs y' id here) refl g in
      (sols ∙ append_assoc xs (y' ∷ []) (map (limited b.default_limits) ys), traffic, argument)

  pub construct-setup_from :
      (options : Options I) (fds : D) (status : Status) (k : K) (ahead : List EndEnv)
      {r : D × BrokerImpl I T K}
      → construct killer options fcntl fds status k ahead ≡ ok r
      → setup_from killer fcntl 0
          (length (map (new_solution {I = I} {T = T} status) options.solutions))
          fds
          (record {
            default_limits = options.default_limits;
            default_argument = options.default_argument;
            solutions = map (new_solution status) options.solutions;
            killer = k;
            ahead = ahead;
            traffic = [];
          })
        ≡ ok r
  unfolding construct
  construct-setup_from options fds status k ahead e =
      rw (← length-map options.solutions (new_solution {I = I} {T = T} status)) at e

  pub new_broker-construct :
      (options : Options I) (fds : D) (status : Status) (k : K) (ahead : List EndEnv)
      {b : BrokerImpl I T K}
      → new_broker killer options fcntl fds status k ahead ≡ ok b
      → (fds' : D) × (construct killer options fcntl fds status k ahead ≡ ok (fds', b))
  unfolding new_broker
  new_broker-construct options fds status k ahead {b} e =
      let ((fds', b'), p, f) = >>=-eq-ok (construct killer options fcntl fds status k ahead) _ e in
      (fds', p ∙ ap (λ x. ok (fds', x)) (ok-injective f))

  -- The solutions of a new broker; no byte has moved yet; and its default argument.
  pub new_broker-start :
      (options : Options I) (fds : D) (status : Status) (k : K) (ahead : List EndEnv)
      {b : BrokerImpl I T K}
      → new_broker killer options fcntl fds status k ahead ≡ ok b
      → (b.solutions
          ≡ map (limited options.default_limits) (map (new_solution status) options.solutions))
        × (b.traffic ≡ [])
        × (b.default_argument ≡ options.default_argument)
  new_broker-start options fds status k ahead e =
      let (fds', p) = new_broker-construct options fds status k ahead e in
      setup_from-limited [] (map (new_solution status) options.solutions) 0 fds _ refl refl
        (construct-setup_from options fds status k ahead p)

  -- A new broker, if its constructor returns, has one solution for each process of the options, in
  -- their order, each with no tokenizer, empty buffers and the limits of the options.
  pub new_broker-fresh :
      (options : Options I) (fds : D) (status : Status) (k : K) (ahead : List EndEnv)
      {b : BrokerImpl I T K}
      → new_broker killer options fcntl fds status k ahead ≡ ok b
      → b.solutions
        ≡ map (limited options.default_limits) (map (new_solution status) options.solutions)
  new_broker-fresh options fds status k ahead e = (new_broker-start options fds status k ahead e).0
