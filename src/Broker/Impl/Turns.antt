-- ===== src/Broker/Impl/Turns.antt =====
-- Iterations of the solutions, by `begin`, `send` and `end` of src/lib/BrokerImpl.cpp, one after
-- another.
pub mod Lines
use deprecated_yandex_contes.Base.{
  ℕ, Bool, List, [], ◌∷◌, Bytes, get_elem?, get_elem?-set_ne, ◌==◌, if◌then◌else◌, Result, ok,
  ◌>>=◌, >>=-eq-ok, ok-injective, ◌≡◌, ◌≢◌, refl, ap, subst, ◌∙◌,
}
use deprecated_yandex_contes.Tokenizer.{TokenizerLibrary}
use deprecated_yandex_contes.Killer.{KillerOps}
use deprecated_yandex_contes.Broker.Types.{ResourceLimits, BrokerResult, ok_status}
use deprecated_yandex_contes.Broker.State.{EndEnv, BrokerImpl, solution, send}
use deprecated_yandex_contes.Broker.Impl.{begin_with, end_in}
use deprecated_yandex_contes.Broker.Impl.Frame.{solution-ok}
use deprecated_yandex_contes.Broker.Impl.Flow.{taken_of}
use deprecated_yandex_contes.Broker.Impl.Balance.Others.{
  begin_with-traffic, send-traffic, end_in-StaysMoved,
}
use deprecated_yandex_contes.Broker.Impl.Protocol.Changes.{
  begin_with-Moves, send-Moves, end_in-Moves,
}
use deprecated_yandex_contes.Broker.Impl.Turn.{iteration, send_all}

-- An iteration: the solution, the byte that ends its token, the limits, the messages, what its
-- `end` meets, and whether that drops the messages left.
pub record Turn : Type 0 where
  pub id : ℕ
  pub sep : ℕ
  pub limits : ResourceLimits
  pub msgs : List Bytes
  pub env : EndEnv
  pub discard : Bool

module _ {I T K : Type 0} (lib : TokenizerLibrary T) (killer : KillerOps I K) where
  -- The iterations in turn, with the result of each.
  unfoldable pub turns :
      List Turn → BrokerImpl I T K → Result (List (Turn × BrokerResult) × BrokerImpl I T K)
  turns [] b = ok ([], b)
  turns (t ∷ ts) b = do
    (r, b₁) ← iteration lib killer t.id (t.sep ∷ []) t.limits t.msgs t.env t.discard b
    (rs, b₂) ← turns ts b₁
    ok ((t, r) ∷ rs, b₂)

-- Of the results, the payloads of one solution, and the bytes that were to end them.
abbrev pub payloads_of : ℕ → List (Turn × BrokerResult) → List Bytes
payloads_of id [] = []
payloads_of id ((t, r) ∷ rs) =
    let rest = payloads_of id rs in if t.id == id then r.payload ∷ rest else rest

abbrev pub seps_of : ℕ → List (Turn × BrokerResult) → List ℕ
seps_of id [] = []
seps_of id ((t, r) ∷ rs) = let rest = seps_of id rs in if t.id == id then t.sep ∷ rest else rest

-- The results of the solution have the status ok.
abbrev pub AllOk : ℕ → List (Turn × BrokerResult) → Type 0
AllOk id [] = Unit {0}
AllOk id ((t, r) ∷ rs) = (t.id ≡ id → r.status ≡ ok_status) × AllOk id rs

module _ {I T K : Type 0} (lib : TokenizerLibrary T) (killer : KillerOps I K) (id : ℕ) where
  -- The solution `id` is as it was, and no byte of it has moved.
  abbrev Untouched : BrokerImpl I T K → BrokerImpl I T K → Type 0
  Untouched b b' =
      (get_elem? b'.solutions id ≡ get_elem? b.solutions id)
      × (taken_of id b'.traffic ≡ taken_of id b.traffic)

  Untouched-trans : (b b₁ b₂ : BrokerImpl I T K) → Untouched b b₁ → Untouched b₁ b₂ → Untouched b b₂
  Untouched-trans b b₁ b₂ (p, q) (p', q') = (p' ∙ p, q' ∙ q)

  sends-Untouched :
      (j : ℕ) (msgs : List Bytes) (b : BrokerImpl I T K) {b' : BrokerImpl I T K}
      → j ≢ id
      → send_all j msgs b ≡ ok b'
      → Untouched b b'
  unfolding send_all send
  sends-Untouched j [] b ne e = subst (Untouched b) (ok-injective e) (refl, refl)
  sends-Untouched j (msg ∷ msgs) b {b'} ne e =
      let (mid, p, f) = >>=-eq-ok (send j msg b) _ e in
      let (sol, at, _) = >>=-eq-ok (solution j b) _ p in
      let (_, (new, (_, same), _)) = send-Moves j msg b (solution-ok j b at) p in
      Untouched-trans b mid b'
        (
          ap (λ xs. get_elem? xs id) same ∙ get_elem?-set_ne b.solutions new ne,
          ap (taken_of id) (send-traffic j msg b p),
        )
        (sends-Untouched j msgs mid ne f)

  pub iteration-Untouched :
      (j : ℕ) (argument : Bytes) (limits : ResourceLimits) (msgs : List Bytes) (env : EndEnv)
      (discard : Bool) (b : BrokerImpl I T K) {r : BrokerResult × BrokerImpl I T K}
      → j ≢ id
      → iteration lib killer j argument limits msgs env discard b ≡ ok r
      → Untouched b r.1
  unfolding iteration begin_with end_in
  iteration-Untouched j argument limits msgs env discard b {r} ne e =
      let (b₁, p₁, f₁) = >>=-eq-ok (begin_with lib j argument limits b) _ e in
      let (_, at₁, _) = >>=-eq-ok (solution j b) _ p₁ in
      let (_, (new₁, (_, same₁), _)) =
        begin_with-Moves lib j argument limits b (solution-ok j b at₁) p₁ in
      let (b₂, p₂, f₂) = >>=-eq-ok (send_all j msgs b₁) _ f₁ in
      let (_, at₂, _) = >>=-eq-ok (solution j b₂) _ f₂ in
      let (_, (new₂, (_, same₂), _)) =
        end_in-Moves lib killer env j discard b₂ (solution-ok j b₂ at₂) f₂ in
      Untouched-trans b b₁ r.1
        (
          ap (λ xs. get_elem? xs id) same₁ ∙ get_elem?-set_ne b.solutions new₁ ne,
          ap (taken_of id) (begin_with-traffic lib j argument limits b p₁),
        )
        (Untouched-trans b₁ b₂ r.1 (sends-Untouched j msgs b₁ ne p₂) (
          ap (λ xs. get_elem? xs id) same₂ ∙ get_elem?-set_ne b₂.solutions new₂ ne,
          end_in-StaysMoved lib killer (λ t. t.taken) id env j discard b₂ ne f₂,
        ))
