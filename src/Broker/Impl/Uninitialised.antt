-- ===== src/Broker/Impl/Uninitialised.antt =====
-- `end` in src/lib/BrokerImpl.cpp when the tokenizer has answered already: the local
-- `result.status` is tested before anything assigns it.
use deprecated_yandex_contes.Base.{
  ℕ, Bool, false, [], none, some, get_elem?, if◌then◌else◌, ok, ◌≡◌, refl,
}
use deprecated_yandex_contes.Tokenizer.{TokenizerLibrary}
use deprecated_yandex_contes.Killer.{KillerOps, KillerStatus}
use deprecated_yandex_contes.Broker.Communicate.{is_continue}
use deprecated_yandex_contes.Broker.State.{
  Solution, EndEnv, BrokerImpl, is_null, put_solution, reset,
}
use deprecated_yandex_contes.Broker.Impl.{conclude, end_in, terminate, is_ok}
use deprecated_yandex_contes.Broker.Impl.Frame.{solution_at, put_solution_self}

module _ {I T K : Type 0} (lib : TokenizerLibrary T) (killer : KillerOps I K) where
  terminate_at :
      (id : ℕ) (b : BrokerImpl I T K) {sol : Solution I T} {s : KillerStatus} {k : K}
      → get_elem? b.solutions id ≡ some sol
      → killer.terminate sol.process.id b.killer ≡ ok (s, k)
      → terminate killer id b
        ≡ ok (
            put_solution id
              (record sol { tokenizer = none; inbuf = []; outbuf = [] })
              (record b { killer = k }))
  unfolding terminate
  terminate_at id b at kills = rw (solution_at id b at, kills)

  -- If the tokenizer of a solution has answered in begin, the uninitialised status of end is not
  -- ok, and the killer returns, then end moves no byte, kills the solution, drops its buffers and
  -- returns that status with no payload.
  pub end_in-uninitialised :
      (env : EndEnv) (id : ℕ) (discard : Bool) (b : BrokerImpl I T K) {sol : Solution I T}
      {s : KillerStatus} {k : K}
      → get_elem? b.solutions id ≡ some sol
      → is_null sol.tokenizer ≡ false
      → is_continue sol.tokenizer_status ≡ false
      → is_ok env.uninitialised ≡ false
      → killer.terminate sol.process.id b.killer ≡ ok (s, k)
      → (b' : BrokerImpl I T K) × (end_in lib killer env id discard b
          ≡ ok (record { status = env.uninitialised; payload = [] }, b'))
        × (get_elem? b'.solutions id
            ≡ some (record sol { tokenizer = none; inbuf = []; outbuf = [] }))
        × (b'.killer ≡ k)
        × (b'.traffic ≡ b.traffic)
  unfolding end_in conclude reset put_solution
  end_in-uninitialised env id discard b {sol} {s} {k} at live answered bad kills =
      let sol₁ = record sol { inbuf = if discard then [] else sol.inbuf } in
      let b₁ = put_solution id sol₁ b in
      let at₁ = put_solution_self id b sol₁ at in
      let sol₂ = record sol { tokenizer = none; inbuf = []; outbuf = [] } in
      let b₂ = put_solution id sol₂ (record b₁ { killer = k }) in
      let at₂ = put_solution_self id (record b₁ { killer = k }) sol₂ at₁ in
      (
        put_solution id sol₂ b₂,
        rw (
          solution_at id b at,
          live,
          answered,
          bad,
          solution_at id b at,
          terminate_at id b₁ at₁ kills,
          solution_at id b₂ at₂,
        ),
        put_solution_self id b₂ sol₂ at₂,
        refl,
        refl,
      )
