-- ===== src/Broker/Impl/Settings.antt =====
-- The pipes and the limits of a solution between `begin` and `end` of src/lib/BrokerImpl.cpp.
use deprecated_yandex_contes.Base.{
  ℕ, List, [], ◌∷◌, ◌++◌, not, some, Bytes, get_elem?, ok, >>=-eq-ok, assert-ok, ok-injective, ◌≡◌,
  refl, subst,
}
use deprecated_yandex_contes.Tokenizer.{
  Status, fail, continue, accepted, TokenizerResult, TokenizerLibrary, tokenize, instance_of,
}
use deprecated_yandex_contes.Broker.Types.{ResourceLimits}
use deprecated_yandex_contes.Broker.State.{
  Process, Solution, BrokerImpl, is_null, leftover, put_solution, send,
}
use deprecated_yandex_contes.Broker.Impl.{scan_outbuf, begin_with}
use deprecated_yandex_contes.Broker.Impl.Frame.{solution_at, put_solution_self}
use deprecated_yandex_contes.Broker.Impl.Turn.{send_all}

module _ {I T : Type 0} where
  -- The solution runs as the process, and with the limits.
  abbrev pub RunsAs : Process I → ResourceLimits → Solution I T → Type 0
  RunsAs process limits sol = (sol.process ≡ process) × (sol.resource_limits ≡ limits)

  leftover-RunsAs :
      (s : Status) (sol : Solution I T) (r : TokenizerResult)
      → RunsAs sol.process sol.resource_limits (leftover sol r s)
  unfolding leftover
  leftover-RunsAs fail sol r = (refl, refl)
  leftover-RunsAs continue sol r = (refl, refl)
  leftover-RunsAs accepted sol r = (refl, refl)

  scan_outbuf-RunsAs :
      (lib : TokenizerLibrary T) (t : T) (sol : Solution I T) (bytes : Bytes) {sol' : Solution I T}
      → scan_outbuf lib t sol bytes ≡ ok sol'
      → RunsAs sol.process sol.resource_limits sol'
  unfolding scan_outbuf
  scan_outbuf-RunsAs lib t sol [] e =
      subst (RunsAs sol.process sol.resource_limits) (ok-injective e) (refl, refl)
  scan_outbuf-RunsAs lib t sol (_ ∷ _) e =
      let ((t', r), _, f) = >>=-eq-ok (tokenize lib t sol.outbuf) _ e in
      let answered = record sol { tokenizer = some t'; tokenizer_status = r.status } in
      subst (RunsAs sol.process sol.resource_limits) (ok-injective f)
        (leftover-RunsAs r.status answered r)

module _ {I T K : Type 0} where
  abbrev pub RunsAt : ℕ → Process I → ResourceLimits → BrokerImpl I T K → Type 0
  RunsAt id process limits b =
      (sol : Solution I T) × (get_elem? b.solutions id ≡ some sol) × RunsAs process limits sol

  pub begin_with-RunsAt :
      (lib : TokenizerLibrary T) (id : ℕ) (argument : Bytes) (limits : ResourceLimits)
      (b : BrokerImpl I T K) {sol : Solution I T} {b' : BrokerImpl I T K}
      → get_elem? b.solutions id ≡ some sol
      → begin_with lib id argument limits b ≡ ok b'
      → RunsAt id sol.process limits b'
  unfolding begin_with put_solution
  begin_with-RunsAt lib id argument limits b {sol} {b'} at e =
      let (_, f) = assert-ok (is_null sol.tokenizer) (rw (solution_at id b at) at e) in
      let (t, _, g) = >>=-eq-ok (instance_of lib argument) _ f in
      let (sol', p, h) = >>=-eq-ok (scan_outbuf lib t _ sol.outbuf) _ g in
      subst (RunsAt id sol.process limits) (ok-injective h)
        (sol', put_solution_self id b sol' at, scan_outbuf-RunsAs lib t _ sol.outbuf p)

  send-RunsAt :
      (id : ℕ) (msg : Bytes) (b : BrokerImpl I T K) {process : Process I} {limits : ResourceLimits}
      {b' : BrokerImpl I T K}
      → RunsAt id process limits b
      → send id msg b ≡ ok b'
      → RunsAt id process limits b'
  unfolding send put_solution
  send-RunsAt id msg b {process} {limits} (sol, at, it) e =
      let (_, f) = assert-ok (not (is_null sol.tokenizer)) (rw (solution_at id b at) at e) in
      let sent = record sol { inbuf = sol.inbuf ++ msg } in
      subst (RunsAt id process limits) (ok-injective f) (sent, put_solution_self id b sent at, it)

  pub sends-RunsAt :
      (id : ℕ) (msgs : List Bytes) (b : BrokerImpl I T K) {process : Process I}
      {limits : ResourceLimits} {b' : BrokerImpl I T K}
      → RunsAt id process limits b
      → send_all id msgs b ≡ ok b'
      → RunsAt id process limits b'
  unfolding send_all
  sends-RunsAt id [] b {process} {limits} it e =
      subst (RunsAt id process limits) (ok-injective e) it
  sends-RunsAt id (msg ∷ msgs) b it e =
      let (mid, p, f) = >>=-eq-ok (send id msg b) _ e in
      sends-RunsAt id msgs mid (send-RunsAt id msg b it p) f
