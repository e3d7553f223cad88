-- ===== src/Broker/Impl/Nonblocking.antt =====
-- Behind the constructor of src/lib/BrokerImpl.cpp the pipes of the solutions do not block, which the
-- loops of `communicate` rely on.
use Prim.Native.Nat.{bit_or}
use deprecated_yandex_contes.Base.{
  All-of_map, ℕ, ◌+◌, List, [], ◌∷◌, ◌++◌, All, length, map, ℤ, pos, negsuc, ok, ok-injective,
  subst, ◌≡◌, refl, ap,
}
use deprecated_yandex_contes.Tokenizer.{Status}
use deprecated_yandex_contes.Killer.{KillerOps}
use deprecated_yandex_contes.Broker.Descriptors.{
  Fcntl, o_nonblock, set_done, set_flags, setnonblock,
}
use deprecated_yandex_contes.Broker.State.{
  Process, Solution, Options, EndEnv, BrokerImpl, new_solution,
}
use deprecated_yandex_contes.Broker.Impl.{setup_from, construct}
use deprecated_yandex_contes.Broker.Impl.Fresh.{
  setup_from-cons, construct-setup_from, next_id, limited,
}

-- What the code relies on: a call with F_SETFL that succeeds sets the flags it is given, O_NONBLOCK
-- among them, and one that has O_NONBLOCK makes no other descriptor block.
pub record IsFcntl {D : Type 0} (fcntl : Fcntl D) (Nonblocking : D → ℕ → Type 0) : Type 0 where
  pub sets :
      (fd flags n : ℕ) (fds fds' : D)
      → fcntl.setfl fd (bit_or flags o_nonblock) fds ≡ (pos n, fds')
      → Nonblocking fds' fd
  pub keeps :
      (fd flags n other : ℕ) (fds fds' : D)
      → fcntl.setfl fd (bit_or flags o_nonblock) fds ≡ (pos n, fds')
      → Nonblocking fds other
      → Nonblocking fds' other

module _ {D : Type 0} (fcntl : Fcntl D) (Nonblocking : D → ℕ → Type 0)
    (law : IsFcntl fcntl Nonblocking) where
  -- From `fds` to `fds'`, some descriptors have become non-blocking, this one among them.
  abbrev Unblocked : ℕ → D → D → Type 0
  Unblocked fd fds fds' =
      Nonblocking fds' fd × ((other : ℕ) → Nonblocking fds other → Nonblocking fds' other)

  set_done-ok : (r : ℤ × D) {fds' : D} → set_done r ≡ ok fds' → (n : ℕ) × (r ≡ (pos n, fds'))
  unfolding set_done
  set_done-ok (pos n, fds) e = (n, ap (λ x. (pos n, x)) (ok-injective e))
  set_done-ok (negsuc n, fds) e = cc

  set_flags-Unblocked :
      (fd : ℕ) (flags : ℤ) (fds fds' : D)
      → set_flags fcntl fd flags fds ≡ ok fds'
      → Unblocked fd fds fds'
  unfolding set_flags
  set_flags-Unblocked fd (negsuc _) fds fds' e = cc
  set_flags-Unblocked fd (pos flags) fds fds' e =
      let (n, p) = set_done-ok (fcntl.setfl fd (bit_or flags o_nonblock) fds) e in
      (law.sets fd flags n fds fds' p, λ other. law.keeps fd flags n other fds fds' p)

  setnonblock-Unblocked :
      (fd : ℕ) (fds fds' : D) → setnonblock fcntl fd fds ≡ ok fds' → Unblocked fd fds fds'
  unfolding setnonblock
  setnonblock-Unblocked fd fds fds' e = set_flags-Unblocked fd (fcntl.getfl fd fds) fds fds' e

  -- Both pipes of a process do not block.
  abbrev pub PipesFree : {I : Type 0} → D → Process I → Type 0
  PipesFree fds p = Nonblocking fds p.ends.in_fd × Nonblocking fds p.ends.out_fd

  module _ {I T K : Type 0} (killer : KillerOps I K) where
    setup_from-keeps :
        (xs ys : List (Solution I T)) (id : ℕ) (fds : D) (b : BrokerImpl I T K)
        {r : D × BrokerImpl I T K}
        → id ≡ length xs
        → b.solutions ≡ xs ++ ys
        → setup_from killer fcntl id (length ys) fds b ≡ ok r
        → (fd : ℕ) → Nonblocking fds fd
        → Nonblocking r.0 fd
    unfolding setup_from
    setup_from-keeps xs [] id fds b here split e fd h =
        subst (λ (x : D × BrokerImpl I T K). Nonblocking x.0 fd) (ok-injective e) h
    setup_from-keeps xs (y ∷ ys) id fds b here split e fd h =
        let (_, _, fds₁, fds₂, _, _, p, q, g) =
          setup_from-cons killer fcntl xs ys y id fds b here split e in
        let y' = limited b.default_limits y in
        setup_from-keeps (xs ++ y' ∷ []) ys (id + 1) fds₂ _ (next_id xs y' id here) refl g fd (
          (setnonblock-Unblocked y.process.ends.out_fd fds₁ fds₂ q).1 fd
            ((setnonblock-Unblocked y.process.ends.in_fd fds fds₁ p).1 fd h))

    setup_from-PipesFree :
        (xs ys : List (Solution I T)) (id : ℕ) (fds : D) (b : BrokerImpl I T K)
        {r : D × BrokerImpl I T K}
        → id ≡ length xs
        → b.solutions ≡ xs ++ ys
        → setup_from killer fcntl id (length ys) fds b ≡ ok r
        → All (λ (y : Solution I T). PipesFree r.0 y.process) ys
    setup_from-PipesFree xs [] id fds b here split e = tt
    setup_from-PipesFree xs (y ∷ ys) id fds b here split e =
        let (_, _, fds₁, fds₂, _, _, p, q, g) =
          setup_from-cons killer fcntl xs ys y id fds b here split e in
        let y' = limited b.default_limits y in
        let later =
          setup_from-keeps (xs ++ y' ∷ []) ys (id + 1) fds₂ _ (next_id xs y' id here) refl g in
        let (out, kept) = setnonblock-Unblocked y.process.ends.out_fd fds₁ fds₂ q in
        let (input, _) = setnonblock-Unblocked y.process.ends.in_fd fds fds₁ p in
        (
          (
            later y.process.ends.in_fd (kept y.process.ends.in_fd input),
            later y.process.ends.out_fd out,
          ),
          setup_from-PipesFree (xs ++ y' ∷ []) ys (id + 1) fds₂ _ (next_id xs y' id here) refl g,
        )

    -- Behind a constructor of BrokerImpl that returns, both pipes of every solution of the options
    -- are non-blocking, if a call of fcntl with F_SETFL and flags that include O_NONBLOCK, where it
    -- succeeds, makes its descriptor non-blocking and lets no other one block.
    pub construct-PipesFree :
        (options : Options I) (fds : D) (status : Status) (k : K) (ahead : List EndEnv)
        {r : D × BrokerImpl I T K}
        → construct killer options fcntl fds status k ahead ≡ ok r
        → All (PipesFree r.0) options.solutions
    construct-PipesFree options fds status k ahead e =
        All-of_map (new_solution status) _ options.solutions (
          setup_from-PipesFree [] (map (new_solution status) options.solutions) 0 fds _ refl refl
            (construct-setup_from killer fcntl options fds status k ahead e))
