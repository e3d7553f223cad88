-- ===== src/Broker/Impl/Protocol/Changes.antt =====
-- What each operation of src/lib/BrokerImpl.cpp changes: the solution that it is called for, and no
-- other.
use deprecated_yandex_contes.Base.{
  ℕ, Bool, true, false, not, [], ◌∷◌, ◌++◌, none, some, Bytes, get_elem?, if◌then◌else◌, ok,
  >>=-eq-ok, assert-ok, ok-injective, Bool-cases, set, set-set, ◌≡◌, refl, sym, ap, subst, ◌∙◌, inl,
  inr, arith,
}
use deprecated_yandex_contes.Tokenizer.{
  Status, fail, continue, accepted, TokenizerResult, TokenizerLibrary, instance_of, tokenize,
}
use deprecated_yandex_contes.Killer.{KillerOps}
use deprecated_yandex_contes.Broker.Types.{ResourceLimits, BrokerResult, ResultStatus}
use deprecated_yandex_contes.Broker.Communicate.{Environment, is_continue}
use deprecated_yandex_contes.Broker.State.{
  Solution, EndEnv, BrokerImpl, is_null, put_solution, reset, send, leftover,
}
use deprecated_yandex_contes.Broker.Impl.{
  scan_outbuf, begin_with, talk, conclude, end_in, terminate, is_ok,
}
use deprecated_yandex_contes.Broker.Impl.Flow.{talk-calls}
use deprecated_yandex_contes.Broker.Impl.Frame.{
  solution_at, put_solution_self, put_solution-set, reset-ok, terminate-ok,
}

module _ {I T K : Type 0} where
  -- `b'` is `b` with the solution `new` in the place `id`, if the rest of the state is left aside.
  abbrev pub Changed : ℕ → BrokerImpl I T K → Solution I T → BrokerImpl I T K → Type 0
  Changed id b new b' =
      (get_elem? b'.solutions id ≡ some new) × (b'.solutions ≡ set b.solutions id new)

  Changed-trans :
      (id : ℕ) (b b₁ b₂ : BrokerImpl I T K) (m n : Solution I T)
      → Changed id b m b₁
      → Changed id b₁ n b₂
      → Changed id b n b₂
  Changed-trans id b b₁ b₂ m n (_, p) (at, q) =
      (at, q ∙ ap (λ xs. set xs id n) p ∙ set-set b.solutions id m n)

  put_solution-Changed :
      (id : ℕ) (b : BrokerImpl I T K) (new : Solution I T) {sol : Solution I T}
      → get_elem? b.solutions id ≡ some sol
      → Changed id b new (put_solution id new b)
  put_solution-Changed id b new at = (put_solution_self id b new at, put_solution-set id b new)

  reset-Changed :
      (id : ℕ) (b : BrokerImpl I T K) {sol : Solution I T} {b' : BrokerImpl I T K}
      → get_elem? b.solutions id ≡ some sol
      → reset id b ≡ ok b'
      → Changed id b (record sol { tokenizer = none }) b'
  reset-Changed id b {sol} at e =
      subst (Changed id b (record sol { tokenizer = none })) (sym (reset-ok id b at e))
        (put_solution-Changed id b (record sol { tokenizer = none }) at)

  -- From `b` to `b'`, the tokenizer of the solution `id` comes or goes; nothing happens to the other
  -- solutions.
  abbrev pub Moves : ℕ → BrokerImpl I T K → Bool → BrokerImpl I T K → Type 0
  Moves id b null b' = (new : Solution I T) × Changed id b new b' × (is_null new.tokenizer ≡ null)

  pub send-Moves :
      (id : ℕ) (msg : Bytes) (b : BrokerImpl I T K) {sol : Solution I T} {b' : BrokerImpl I T K}
      → get_elem? b.solutions id ≡ some sol
      → send id msg b ≡ ok b'
      → (is_null sol.tokenizer ≡ false) × Moves id b false b'
  unfolding send
  send-Moves id msg b {sol} at e =
      let (live, f) = assert-ok (not (is_null sol.tokenizer)) (rw (solution_at id b at) at e) in
      let present : is_null sol.tokenizer ≡ false = ground arith in
      let sent = record sol { inbuf = sol.inbuf ++ msg } in
      (
        present,
        subst (λ x. Moves id b false x) (ok-injective f)
            (sent, put_solution-Changed id b sent at, present),
      )

module _ {I T : Type 0} where
  leftover-tokenizer :
      (sol : Solution I T) (r : TokenizerResult) (s : Status)
      → (leftover sol r s).tokenizer ≡ sol.tokenizer
  unfolding leftover
  leftover-tokenizer sol r fail = refl
  leftover-tokenizer sol r continue = refl
  leftover-tokenizer sol r accepted = refl

  scan_outbuf-tokenizer :
      (lib : TokenizerLibrary T) (t : T) (sol : Solution I T) (out : Bytes) {sol' : Solution I T}
      → is_null sol.tokenizer ≡ false
      → scan_outbuf lib t sol out ≡ ok sol'
      → is_null sol'.tokenizer ≡ false
  unfolding scan_outbuf
  scan_outbuf-tokenizer lib t sol [] h e = ap (λ x. is_null x.tokenizer) (sym (ok-injective e)) ∙ h
  scan_outbuf-tokenizer lib t sol (o ∷ os) h e =
      let ((t', r), _, f) = >>=-eq-ok (tokenize lib t sol.outbuf) _ e in
      let answered = record sol { tokenizer = some t'; tokenizer_status = r.status } in
      ap (λ x. is_null x.tokenizer) (sym (ok-injective f))
      ∙ ap is_null (leftover-tokenizer answered r r.status)

module _ {I T K : Type 0} (lib : TokenizerLibrary T) where
  pub begin_with-Moves :
      (id : ℕ) (argument : Bytes) (limits : ResourceLimits) (b : BrokerImpl I T K)
      {sol : Solution I T} {b' : BrokerImpl I T K}
      → get_elem? b.solutions id ≡ some sol
      → begin_with lib id argument limits b ≡ ok b'
      → (is_null sol.tokenizer ≡ true) × Moves id b false b'
  unfolding begin_with
  begin_with-Moves id argument limits b {sol} at e =
      let (free, f) = assert-ok (is_null sol.tokenizer) (rw (solution_at id b at) at e) in
      let (t, _, g) = >>=-eq-ok (instance_of lib argument) _ f in
      let begun = record sol {
        tokenizer = some t;
        tokenizer_status = continue;
        result = [];
        resource_limits = limits;
      } in
      let (sol', p, h) = >>=-eq-ok (scan_outbuf lib t begun sol.outbuf) _ g in
      (
        free,
        subst (λ x. Moves id b false x) (ok-injective h)
            (
              sol',
              put_solution-Changed id b sol' at,
              scan_outbuf-tokenizer lib t begun sol.outbuf refl p,
            ),
      )

module _ {I T K : Type 0} (killer : KillerOps I K) where
  terminate-Changed :
      (id : ℕ) (b : BrokerImpl I T K) {sol : Solution I T} {b' : BrokerImpl I T K}
      → get_elem? b.solutions id ≡ some sol
      → terminate killer id b ≡ ok b'
      → Changed id b (record sol { tokenizer = none; inbuf = []; outbuf = [] }) b'
  terminate-Changed id b {sol} at e =
      let cleared = record sol { tokenizer = none; inbuf = []; outbuf = [] } in
      let (k, same) = terminate-ok killer id b at e in
      subst (Changed id b cleared) (sym same)
        (put_solution-Changed id (record b { killer = k }) cleared at)

  pub terminate-Moves :
      (id : ℕ) (b : BrokerImpl I T K) {sol : Solution I T} {b' : BrokerImpl I T K}
      → get_elem? b.solutions id ≡ some sol
      → terminate killer id b ≡ ok b'
      → Moves id b true b'
  terminate-Moves id b at e = (_, terminate-Changed id b at e, refl)

module _ {I T K : Type 0} (lib : TokenizerLibrary T) (killer : KillerOps I K) where
  talk-Changed :
      (id : ℕ) (env : Environment) (b : BrokerImpl I T K) {sol : Solution I T}
      {r : ResultStatus × BrokerImpl I T K}
      → get_elem? b.solutions id ≡ some sol
      → talk lib killer id env b ≡ ok r
      → (new : Solution I T) × Changed id b new r.1
  unfolding put_solution
  talk-Changed id env b {sol} at e =
      let (sol', s, c, k, p, done, _) = talk-calls lib killer id env b sol at e in
      (sol', subst (Changed id b sol') (sym done) (put_solution-Changed id b sol' at))

  conclude-Moves :
      (id : ℕ) (discard : Bool) (s : ResultStatus) (b : BrokerImpl I T K) {sol : Solution I T}
      {r : BrokerResult × BrokerImpl I T K}
      → get_elem? b.solutions id ≡ some sol
      → conclude lib killer id discard s b ≡ ok r
      → Moves id b true r.1
  unfolding conclude
  conclude-Moves id discard s b {sol} at e =
      let f = rw (solution_at id b at) at e in
      let sol' = record sol { inbuf = if discard then [] else sol.inbuf } in
      let b' = put_solution id sol' b in
      let ch = put_solution-Changed id b sol' at in
      elim (Bool-cases (is_ok s)) [
        | inl c ↦
            let (b'', p, h) = >>=-eq-ok (reset id b') _ (rw c at f) in
            let ch' = reset-Changed id b' ch.0 p in
            subst (λ (x : BrokerResult × BrokerImpl I T K). Moves id b true x.1) (ok-injective h)
              (
                record sol' { tokenizer = none },
                Changed-trans id b b' b'' sol' (record sol' { tokenizer = none }) ch ch',
                refl,
              )
        | inr d ↦
            let last = record sol' { tokenizer = none; inbuf = []; outbuf = [] } in
            let (b₁, p, h) = >>=-eq-ok (terminate killer id b') _ (rw d at f) in
            let ch₁ = terminate-Changed killer id b' ch.0 p in
            let (b₂, q, k) = >>=-eq-ok (reset id b₁) _ h in
            let ch₂ = reset-Changed id b₁ ch₁.0 q in
            subst (λ (x : BrokerResult × BrokerImpl I T K). Moves id b true x.1) (ok-injective k)
              (
                last,
                Changed-trans id b b' b₂ sol' last ch (Changed-trans id b' b₁ b₂ last last ch₁ ch₂),
                refl,
              )
      ]

  pub end_in-Moves :
      (env : EndEnv) (id : ℕ) (discard : Bool) (b : BrokerImpl I T K) {sol : Solution I T}
      {r : BrokerResult × BrokerImpl I T K}
      → get_elem? b.solutions id ≡ some sol
      → end_in lib killer env id discard b ≡ ok r
      → (is_null sol.tokenizer ≡ false) × Moves id b true r.1
  unfolding end_in
  end_in-Moves env id discard b {sol} {r} at e =
      let (live, f) = assert-ok (not (is_null sol.tokenizer)) (rw (solution_at id b at) at e) in
      let present : is_null sol.tokenizer ≡ false = ground arith in
      elim (Bool-cases (is_continue sol.tokenizer_status)) [
        | inl c ↦
            let ((s, b'), p, h) = >>=-eq-ok (talk lib killer id env.environment b) _ (rw c at f) in
            let (mid, ch) = talk-Changed id env.environment b at p in
            let (new, ch', null) = conclude-Moves id discard s b' ch.0 h in
            (present, (new, Changed-trans id b b' r.1 mid new ch ch', null))
        | inr d ↦ (present, conclude-Moves id discard env.uninitialised b at (rw d at f))
      ]
