-- ===== src/Broker/Impl/Flow.antt =====
-- What the calls of `end` have moved through the pipes of one solution, and which calls move bytes.
use deprecated_yandex_contes.Base.{
  ℕ, some, get_elem?, true, false, List, [], ◌∷◌, ◌++◌, Bytes, if◌then◌else◌, ◌==◌, Bool-cases,
  >>=-eq-ok, ok-injective, ok, ◌≡◌, ◌≢◌, refl, sym, ap, ◌∙◌, inl, inr, arith, append-nil,
  append_assoc,
}
use deprecated_yandex_contes.Tokenizer.{TokenizerLibrary}
use deprecated_yandex_contes.Killer.{KillerOps}
use deprecated_yandex_contes.Broker.Types.{ResultStatus}
use deprecated_yandex_contes.Broker.Communicate.{Environment, Comm}
use deprecated_yandex_contes.Broker.State.{Solution, BrokerImpl, Traffic, put_solution}
use deprecated_yandex_contes.Broker.Impl.{talk, transfer, freeze, unfreeze}
use deprecated_yandex_contes.Broker.Impl.Frame.{solution_at, freeze-ok, unfreeze-ok}

-- The bytes of the solution `id`, on one of the two pipes.
abbrev pub moved_of : (Traffic → Bytes) → ℕ → List Traffic → Bytes
moved_of bytes id [] = []
moved_of bytes id (t ∷ ts) =
    if t.id == id then bytes t ++ moved_of bytes id ts else moved_of bytes id ts

-- All bytes that the calls of `end` have read from the solution `id`, and all that they have written
-- to it.
abbrev pub taken_of : ℕ → List Traffic → Bytes
taken_of = moved_of (λ (t : Traffic). t.taken)

abbrev pub delivered_of : ℕ → List Traffic → Bytes
delivered_of = moved_of (λ (t : Traffic). t.delivered)

module _ (bytes : Traffic → Bytes) (id : ℕ) (t : Traffic) where
  pub moved_of-append :
      (ts : List Traffic)
      → t.id ≡ id
      → moved_of bytes id (ts ++ t ∷ []) ≡ moved_of bytes id ts ++ bytes t
  moved_of-append [] h =
      let same : (t.id == id) ≡ true = ground arith in rw same (append-nil (bytes t))
  moved_of-append (u ∷ ts) h = elim (Bool-cases (u.id == id)) [
    | inl e ↦
        rw (e, moved_of-append ts h) (sym (append_assoc (bytes u) (moved_of bytes id ts) (bytes t)))
    | inr e ↦ rw e (moved_of-append ts h)
  ]

  pub moved_of_other :
      (ts : List Traffic) → t.id ≢ id → moved_of bytes id (ts ++ t ∷ []) ≡ moved_of bytes id ts
  moved_of_other [] h = let other : (t.id == id) ≡ false = ground arith in rw other refl
  moved_of_other (u ∷ ts) h = elim (Bool-cases (u.id == id)) [
    | inl e ↦ rw (e, moved_of_other ts h) refl
    | inr e ↦ rw e (moved_of_other ts h)
  ]

-- The entry that `end` makes of what went through the pipes.
abbrev pub flow_of : {T : Type 0} → ℕ → Comm T → Traffic
flow_of id c = record { id = id; delivered = c.writer.delivered; taken = c.reader.taken }

module _ {I T K : Type 0} (lib : TokenizerLibrary T) (killer : KillerOps I K) where
  -- What the running part of an `end` that returns leaves of the broker.
  pub talk-calls :
      (id : ℕ) (env : Environment) (b : BrokerImpl I T K) (sol : Solution I T)
      {r : ResultStatus × BrokerImpl I T K}
      → get_elem? b.solutions id ≡ some sol
      → talk lib killer id env b ≡ ok r
      → (sol' : Solution I T) × (s : ResultStatus) × (c : Comm T) × (k : K) × (transfer lib env sol
          ≡ ok (sol', s, c))
        × (r.1
            ≡ put_solution id sol'
                (record b { killer = k; traffic = b.traffic ++ flow_of id c ∷ [] }))
        × (r.0 ≡ s)
  unfolding talk put_solution
  talk-calls id env b sol {r} at e =
      let (b₁, p₁, f₁) = >>=-eq-ok (unfreeze killer id b) _ e in
      let (k₁, e₁) = unfreeze-ok killer id b p₁ in
      let at₁ : get_elem? b₁.solutions id ≡ some sol = rw e₁ at in
      let f₂ = rw (solution_at id b₁ at₁) at f₁ in
      let ((sol', s, c), p₂, f₃) = >>=-eq-ok (transfer lib env sol) _ f₂ in
      let moved = λ (x : BrokerImpl I T K).
        put_solution id sol' (record x { traffic = x.traffic ++ flow_of id c ∷ [] }) in
      let (b₂, p₃, f₄) = >>=-eq-ok (freeze killer id (moved b₁)) _ f₃ in
      let (k₂, e₂) = freeze-ok killer id (moved b₁) p₃ in
      (
        sol',
        s,
        c,
        k₂,
        p₂,
        ap (λ (x : ResultStatus × BrokerImpl I T K). x.1) (sym (ok-injective f₄))
            ∙ e₂
            ∙ ap (λ (x : BrokerImpl I T K). record (moved x) { killer = k₂ }) e₁,
        ap (λ (x : ResultStatus × BrokerImpl I T K). x.0) (sym (ok-injective f₄)),
      )
