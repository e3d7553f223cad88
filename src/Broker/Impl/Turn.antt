-- ===== src/Broker/Impl/Turn.antt =====
-- A whole iteration of one solution: `begin`, messages by `send`, and `end`.
use deprecated_yandex_contes.Base.{
  ℕ, Bool, not, List, [], ◌∷◌, ◌++◌, some, Bytes, get_elem?, Result, ok, ◌>>=◌, >>=-eq-ok,
  assert-ok, ok-injective, ◌≡◌, refl, ap, subst, ◌∙◌,
}
use deprecated_yandex_contes.Tokenizer.{continue, TokenizerLibrary, instance_of}
use deprecated_yandex_contes.Tokenizer.Laws.{IsTokenizer}
use deprecated_yandex_contes.Killer.{KillerOps}
use deprecated_yandex_contes.Broker.Types.{ResourceLimits, BrokerResult, ok_status}
use deprecated_yandex_contes.Broker.State.{
  Solution, EndEnv, BrokerImpl, is_null, put_solution, send,
}
use deprecated_yandex_contes.Broker.Impl.{scan_outbuf, begin_with, end_in}
use deprecated_yandex_contes.Broker.Impl.Frame.{solution_at, put_solution_self}
use deprecated_yandex_contes.Broker.Impl.Iteration.{scan_outbuf-Iterating}
use deprecated_yandex_contes.Broker.Impl.Flow.{taken_of}
use deprecated_yandex_contes.Broker.Impl.Answer.{IteratingAt, Tokenized, end_in-Tokenized}

module _ {I T K : Type 0} where
  unfoldable pub send_all : ℕ → List Bytes → BrokerImpl I T K → Result (BrokerImpl I T K)
  send_all id [] b = ok b
  send_all id (msg ∷ msgs) b = do b' ← send id msg b; send_all id msgs b'

  -- The calls of one iteration.
  unfoldable pub iteration :
      TokenizerLibrary T
      → KillerOps I K
      → ℕ
      → Bytes
      → ResourceLimits
      → List Bytes
      → EndEnv
      → Bool
      → BrokerImpl I T K
      → Result (BrokerResult × BrokerImpl I T K)
  iteration lib killer id argument limits msgs env discard b = do
    b₁ ← begin_with lib id argument limits b
    b₂ ← send_all id msgs b₁
    end_in lib killer env id discard b₂

module _ {I T K : Type 0} (lib : TokenizerLibrary T) (Ready : T → Type 0) (t₀ : T) where
  module _ (killer : KillerOps I K) (law : IsTokenizer lib Ready) where
    pub begin_with-IteratingAt :
        (id : ℕ) (argument : Bytes) (limits : ResourceLimits) (b : BrokerImpl I T K)
        {sol : Solution I T} {b' : BrokerImpl I T K}
        → get_elem? b.solutions id ≡ some sol
        → instance_of lib argument ≡ ok t₀
        → Ready t₀
        → begin_with lib id argument limits b ≡ ok b'
        → IteratingAt lib Ready t₀ id sol.outbuf b' × (b'.traffic ≡ b.traffic)
    unfolding begin_with put_solution
    begin_with-IteratingAt id argument limits b {sol} {b'} at made ready e =
        let (_, f) = assert-ok (is_null sol.tokenizer) (rw (solution_at id b at) at e) in
        let begun = record sol {
          tokenizer = some t₀;
          tokenizer_status = continue;
          result = [];
          resource_limits = limits;
        } in
        let (sol', p, g) = >>=-eq-ok (scan_outbuf lib t₀ begun sol.outbuf) _ (rw made at f) in
        subst
          (λ (x : BrokerImpl I T K).
            IteratingAt lib Ready t₀ id sol.outbuf x × (x.traffic ≡ b.traffic))
          (ok-injective g)
          (
            (
              sol',
              put_solution_self id b sol' at,
              scan_outbuf-Iterating lib Ready t₀ law sol.outbuf begun refl ready refl refl refl p,
            ),
            refl,
          )

    send-IteratingAt :
        (id : ℕ) (msg : Bytes) (b : BrokerImpl I T K) (seen : Bytes) {b' : BrokerImpl I T K}
        → IteratingAt lib Ready t₀ id seen b
        → send id msg b ≡ ok b'
        → IteratingAt lib Ready t₀ id seen b' × (b'.traffic ≡ b.traffic)
    unfolding send put_solution
    send-IteratingAt id msg b seen {b'} (sol, at, it) e =
        let (_, f) = assert-ok (not (is_null sol.tokenizer)) (rw (solution_at id b at) at e) in
        let sent = record sol { inbuf = sol.inbuf ++ msg } in
        subst
          (λ (x : BrokerImpl I T K). IteratingAt lib Ready t₀ id seen x × (x.traffic ≡ b.traffic))
          (ok-injective f) ((sent, put_solution_self id b sent at, it), refl)

    pub sends-IteratingAt :
        (id : ℕ) (msgs : List Bytes) (b : BrokerImpl I T K) (seen : Bytes) {b' : BrokerImpl I T K}
        → IteratingAt lib Ready t₀ id seen b
        → send_all id msgs b ≡ ok b'
        → IteratingAt lib Ready t₀ id seen b' × (b'.traffic ≡ b.traffic)
    unfolding send_all
    sends-IteratingAt id [] b seen it e =
        subst
          (λ (x : BrokerImpl I T K). IteratingAt lib Ready t₀ id seen x × (x.traffic ≡ b.traffic))
          (ok-injective e) (it, refl)
    sends-IteratingAt id (msg ∷ msgs) b seen it e =
        let (mid, p, f) = >>=-eq-ok (send id msg b) _ e in
        let (it', same) = send-IteratingAt id msg b seen it p in
        let (it'', same') = sends-IteratingAt id msgs mid seen it' f in (it'', same' ∙ same)

    -- An iteration of a solution (begin, any messages, end) that ends with the status ok returns
    -- the token that a new tokenizer finds in the output left from before and the bytes that end
    -- has read, taken as one text; what stands behind the token is left for the next iteration, and
    -- the solution has no tokenizer any more. The tokenizer library keeps its contract, and the new
    -- tokenizer is ready.
    pub iteration-Tokenized :
        (id : ℕ) (argument : Bytes) (limits : ResourceLimits) (msgs : List Bytes) (env : EndEnv)
        (discard : Bool) (b : BrokerImpl I T K) {sol : Solution I T}
        {r : BrokerResult × BrokerImpl I T K}
        → get_elem? b.solutions id ≡ some sol
        → instance_of lib argument ≡ ok t₀
        → Ready t₀
        → iteration lib killer id argument limits msgs env discard b ≡ ok r
        → r.0.status ≡ ok_status
        → (bytes : Bytes) × Tokenized lib Ready t₀ killer law id (sol.outbuf ++ bytes) r.0 r.1
          × (taken_of id r.1.traffic ≡ taken_of id b.traffic ++ bytes)
    unfolding iteration
    iteration-Tokenized id argument limits msgs env discard b {sol} at made ready e good =
        let (b₁, p₁, f₁) = >>=-eq-ok (begin_with lib id argument limits b) _ e in
        let (it₁, same₁) = begin_with-IteratingAt id argument limits b at made ready p₁ in
        let (b₂, p₂, f₂) = >>=-eq-ok (send_all id msgs b₁) _ f₁ in
        let (it₂, same₂) = sends-IteratingAt id msgs b₁ sol.outbuf it₁ p₂ in
        let (bytes, token, moved) =
          end_in-Tokenized lib Ready t₀ killer law env id discard b₂ sol.outbuf it₂ good f₂ in
        (bytes, token, moved ∙ ap (λ ts. taken_of id ts ++ bytes) (same₂ ∙ same₁))
