-- ===== src/Broker/Impl/Protocol.antt =====
-- Which calls each solution takes, and what a call leaves of the other solutions.
pub mod Changes
pub mod Refused
use deprecated_yandex_contes.Base.{
  ℕ, Bool, true, false, not, Option, none, some, Bytes, get_elem?, set, ok, ◌>>=◌, ◌>>◌, >>=-eq-ok,
  ok-injective, ◌≡◌, refl, sym, ap, subst, ◌∙◌,
}
use deprecated_yandex_contes.Tokenizer.{TokenizerLibrary}
use deprecated_yandex_contes.Killer.{KillerOps}
use deprecated_yandex_contes.Broker.Types.{ResourceLimits, BrokerResult}
use deprecated_yandex_contes.Broker.Interface.{
  Call, begin_with, begin_as, begin, send, end_with, end, terminate,
}
use deprecated_yandex_contes.Broker.Interface.Calls.{exec, call_id}
use deprecated_yandex_contes.Broker.State.{Solution, BrokerImpl, is_null}
use deprecated_yandex_contes.Broker.State
use deprecated_yandex_contes.Broker.Impl.{impl, end_in}
use deprecated_yandex_contes.Broker.Impl
use deprecated_yandex_contes.Broker.Impl.Frame.{end-end_in, solution-ok}
use deprecated_yandex_contes.Broker.Impl.Protocol.Changes.{
  Moves, begin_with-Moves, send-Moves, terminate-Moves, end_in-Moves,
}

-- A solution with a tokenizer is in an iteration.
pub data Phase : Type 0 where
  idle running : Phase

abbrev pub phase_from : Bool → Phase
phase_from true = idle
phase_from false = running

abbrev pub is_idle : Phase → Bool
is_idle idle = true
is_idle running = false

-- The phase that a call is made in, and the one that it leaves.
abbrev pub takes : Call → Phase → Bool
takes (begin_with _ _ _) p = is_idle p
takes (begin_as _ _) p = is_idle p
takes (begin _) p = is_idle p
takes (send _ _) p = not (is_idle p)
takes (end_with _ _) p = not (is_idle p)
takes (end _) p = not (is_idle p)
takes (terminate _) p = true

abbrev pub after : Call → Phase
after (begin_with _ _ _) = running
after (begin_as _ _) = running
after (begin _) = running
after (send _ _) = running
after (end_with _ _) = idle
after (end _) = idle
after (terminate _) = idle

abbrev pub phase_of : {I T : Type 0} → Option (Solution I T) → Option Phase
phase_of none = none
phase_of (some sol) = some (phase_from (is_null sol.tokenizer))

module _ {I T K : Type 0} where
  -- The phase of a solution, if there is one.
  abbrev pub phase_at : ℕ → BrokerImpl I T K → Option Phase
  phase_at id b = phase_of (get_elem? b.solutions id)

  -- A call took a solution from a phase that fits to the one behind the call, and left the others.
  abbrev pub Follows : Call → BrokerImpl I T K → BrokerImpl I T K → Type 0
  Follows call b b' =
      (p : Phase) × (new : Solution I T) × (phase_at (call_id call) b ≡ some p)
      × (takes call p ≡ true)
      × (phase_at (call_id call) b' ≡ some (after call))
      × (b'.solutions ≡ set b.solutions (call_id call) new)

  Moves-Follows :
      (call : Call) (b b' : BrokerImpl I T K) {sol : Solution I T} {null : Bool}
      → get_elem? b.solutions (call_id call) ≡ some sol
      → takes call (phase_from (is_null sol.tokenizer)) ≡ true
      → phase_from null ≡ after call
      → Moves (call_id call) b null b'
      → Follows call b b'
  Moves-Follows call b b' {sol} at t e (new, (at', same), n) = (
    phase_from (is_null sol.tokenizer),
    new,
    ap phase_of at,
    t,
    ap phase_of at' ∙ ap (λ x. some (phase_from x)) n ∙ ap some e,
    same,
  )

module _ {I T K : Type 0} (lib : TokenizerLibrary T) (killer : KillerOps I K) where
  begin_with-Follows :
      (call : Call) (argument : Bytes) (limits : ResourceLimits) (b : BrokerImpl I T K)
      {b' : BrokerImpl I T K}
      → takes call idle ≡ true
      → after call ≡ running
      → Impl.begin_with lib (call_id call) argument limits b ≡ ok b'
      → Follows call b b'
  unfolding Impl.begin_with
  begin_with-Follows call argument limits b {b'} t e run =
      let (sol, p, _) = >>=-eq-ok (State.solution (call_id call) b) _ run in
      let at = solution-ok (call_id call) b p in
      let (free, moves) = begin_with-Moves lib (call_id call) argument limits b at run in
      Moves-Follows call b b' at (rw free t) (sym e) moves

  end-Follows :
      (call : Call) (discard : Bool) (b : BrokerImpl I T K) {r : BrokerResult × BrokerImpl I T K}
      → takes call running ≡ true
      → after call ≡ idle
      → Impl.end lib killer (call_id call) discard b ≡ ok r
      → Follows call b r.1
  unfolding end_in
  end-Follows call discard b {r} t e run =
      let (env, rest, f) = end-end_in lib killer b.ahead (call_id call) discard b refl run in
      let started = record b { ahead = rest } in
      let (sol, p, _) = >>=-eq-ok (State.solution (call_id call) started) _ f in
      let at = solution-ok (call_id call) started p in
      let (live, moves) = end_in-Moves lib killer env (call_id call) discard started at f in
      Moves-Follows call started r.1 at (rw live t) (sym e) moves

  -- A call of BrokerImpl that succeeds names a solution in a phase that fits (begin: no tokenizer;
  -- send, end: a tokenizer; terminate: any), leaves it in the phase behind that call, and changes
  -- no other solution.
  pub exec-Follows :
      (call : Call) (b : BrokerImpl I T K) {r : Option BrokerResult} {b' : BrokerImpl I T K}
      → exec (impl lib killer) call b ≡ ok (r, b')
      → Follows call b b'
  unfolding exec Impl.begin_as Impl.begin State.send Impl.terminate
  exec-Follows (begin_with id argument limits) b {r} {b'} e =
      let (b₁, p, f) = >>=-eq-ok (Impl.begin_with lib id argument limits b) _ e in
      subst
        (λ (x : Option BrokerResult × BrokerImpl I T K).
          Follows (begin_with id argument limits) b x.1)
        (ok-injective f)
        (begin_with-Follows (begin_with id argument limits) argument limits b refl refl p)
  exec-Follows (begin_as id argument) b {r} {b'} e =
      let (b₁, p, f) = >>=-eq-ok (Impl.begin_as lib id argument b) _ e in
      subst (λ (x : Option BrokerResult × BrokerImpl I T K). Follows (begin_as id argument) b x.1)
        (ok-injective f)
        (begin_with-Follows (begin_as id argument) argument b.default_limits b refl refl p)
  exec-Follows (begin id) b {r} {b'} e =
      let (b₁, p, f) = >>=-eq-ok (Impl.begin lib id b) _ e in
      subst (λ (x : Option BrokerResult × BrokerImpl I T K). Follows (begin id) b x.1)
        (ok-injective f)
        (begin_with-Follows (begin id) b.default_argument b.default_limits b refl refl p)
  exec-Follows (send id msg) b {r} {b'} e =
      let (b₁, p, f) = >>=-eq-ok (State.send id msg b) _ e in
      let (sol, q, _) = >>=-eq-ok (State.solution id b) _ p in
      let at = solution-ok id b q in
      let (live, moves) = send-Moves id msg b at p in
      subst (λ (x : Option BrokerResult × BrokerImpl I T K). Follows (send id msg) b x.1)
        (ok-injective f) (Moves-Follows (send id msg) b b₁ at (rw live refl) refl moves)
  exec-Follows (end_with id discard) b {r} {b'} e =
      let (d, p, f) = >>=-eq-ok (Impl.end lib killer id discard b) _ e in
      subst (λ (x : Option BrokerResult × BrokerImpl I T K). Follows (end_with id discard) b x.1)
        (ok-injective f) (end-Follows (end_with id discard) discard b refl refl p)
  exec-Follows (end id) b {r} {b'} e =
      let (d, p, f) = >>=-eq-ok (Impl.end lib killer id false b) _ e in
      subst (λ (x : Option BrokerResult × BrokerImpl I T K). Follows (end id) b x.1)
        (ok-injective f) (end-Follows (end id) false b refl refl p)
  exec-Follows (terminate id) b {r} {b'} e =
      let (b₁, p, f) = >>=-eq-ok (Impl.terminate killer id b) _ e in
      let (sol, q, _) = >>=-eq-ok (State.solution id b) _ p in
      let at = solution-ok id b q in
      subst (λ (x : Option BrokerResult × BrokerImpl I T K). Follows (terminate id) b x.1)
        (ok-injective f)
        (Moves-Follows (terminate id) b b₁ at refl refl (terminate-Moves killer id b at p))
