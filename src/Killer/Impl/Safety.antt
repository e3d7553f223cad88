-- ===== src/Killer/Impl/Safety.antt =====
-- The killer leaves every protected control group alone, its own one among them.
use deprecated_yandex_contes.Base.{
  All, >>=-eq-ok, ok-injective, subst, true, false, List, [], ◌∷◌, Bytes, Result, ok, ◌>>=◌,
  Bool-cases, ◌⊎◌, inl, inr, ◌≡◌, ◌≢◌, refl, sym, ap, ◌∙◌, arith,
}
use deprecated_yandex_contes.Killer.{
  KillerStatus, KillerOps, KillerAction, KillerCommand, freeze_action, unfreeze_action,
  terminate_action, perform,
}
use deprecated_yandex_contes.Killer.Impl.{
  ControlGroups, KillerImpl, KillerOptions, contains, same_name, erase, names_of, new_killer,
  act_at, act_on, killer_impl,
}

pub same_name-eq : (a b : Bytes) → same_name a b ≡ true → a ≡ b
same_name-eq [] [] h = refl
same_name-eq [] (_ ∷ _) h = cc
same_name-eq (_ ∷ _) [] h = cc
same_name-eq (a ∷ as_) (b ∷ bs) h =
    let head : a ≡ b = ground arith in
    let tails : same_name as_ bs ≡ true = ground arith in rw (head, same_name-eq as_ bs tails)

contains-erase : (ms : List Bytes) (n : Bytes) → contains (erase ms n) n ≡ false
contains-erase [] n = refl
contains-erase (m ∷ ms) n = ground (arith, contains-erase ms n)

contains-erase_le :
    (ms : List Bytes) (m n : Bytes) → contains ms n ≡ false → contains (erase ms m) n ≡ false
contains-erase_le [] m n h = refl
contains-erase_le (k ∷ ms) m n h = ground (arith, contains-erase_le ms m n)

module _ {I K : Type 0} (killer : KillerOps I K) where
  -- The calls of a list of commands, one after the other.
  unfoldable pub perform_all : List (KillerCommand I) → K → Result K
  perform_all [] k = ok k
  perform_all (c ∷ cs) k = do (_, k') ← perform killer c.type c.id k; perform_all cs k'

module _ {I W X : Type 0} (cgroups : ControlGroups W) (format : Bytes → I → Result Bytes)
    (view : W → X) (n : Bytes)
    (frame : (action : KillerAction) (m : Bytes) (w : W)
      → m ≢ n
      → view (cgroups.act action m w).1 ≡ view w) where
  -- The killer keeps its set of names and its pattern, and the group `n` looks as it did.
  abbrev pub Kept : KillerImpl W → KillerImpl W → Type 0
  Kept k k' =
      (k'.unprotected ≡ k.unprotected) × (k'.pattern ≡ k.pattern) × (view k'.groups ≡ view k.groups)

  act_at-Kept :
      (action : KillerAction) (cid : Bytes) (k : KillerImpl W)
      → contains k.unprotected n ≡ false
      → Kept k (act_at cgroups format action cid k).1
  unfolding act_at
  act_at-Kept action cid k h = elim (Bool-cases (contains k.unprotected cid)) [
    | inl c ↦
        let other : cid ≢ n = λ e. clash (subst (λ m. contains k.unprotected m ≡ true) e c) in
        rw (act_at, c) (refl, refl, frame action cid k.groups other)
    | inr d ↦ rw (act_at, d) (refl, refl, refl)
  ]
    where
      clash : contains k.unprotected n ≡ true → ⊥
      clash p = let bad : true ≡ false = sym p ∙ h in cc

  act_on-Kept :
      (action : KillerAction) (id : I) (k : KillerImpl W) {r : KillerStatus × KillerImpl W}
      → contains k.unprotected n ≡ false
      → act_on cgroups format action id k ≡ ok r
      → Kept k r.1
  unfolding act_on
  act_on-Kept action id k h e =
      let (cid, _, f) = >>=-eq-ok (format k.pattern id) _ e in
      subst (λ (x : KillerStatus × KillerImpl W). Kept k x.1) (ok-injective f)
        (act_at-Kept action cid k h)

  action-cases :
      (a : KillerAction) → (a ≡ freeze_action) ⊎ ((a ≡ unfreeze_action) ⊎ (a ≡ terminate_action))
  action-cases freeze_action = inl refl
  action-cases unfreeze_action = inr (inl refl)
  action-cases terminate_action = inr (inr refl)

  pub perform-act_on :
      (a : KillerAction) (id : I) (k : KillerImpl W)
      → perform (killer_impl cgroups format) a id k ≡ act_on cgroups format a id k
  perform-act_on a id k = elim (action-cases a) [
    | inl e ↦ rw e refl
    | inr (inl e) ↦ rw e refl
    | inr (inr e) ↦ rw e refl
  ]

  pub perform-Kept :
      (c : KillerCommand I) (k : KillerImpl W) {r : KillerStatus × KillerImpl W}
      → contains k.unprotected n ≡ false
      → perform (killer_impl cgroups format) c.type c.id k ≡ ok r
      → Kept k r.1
  perform-Kept c k h e = act_on-Kept c.type c.id k h (sym (perform-act_on c.type c.id k) ∙ e)

  -- The pattern has a place for every identifier.
  abbrev pub Formats : Bytes → Type 0
  Formats pattern = (id : I) → (name : Bytes) × (format pattern id ≡ ok name)

  perform-answers :
      (c : KillerCommand I) (k : KillerImpl W)
      → Formats k.pattern
      → (r : KillerStatus × KillerImpl W) × (perform (killer_impl cgroups format) c.type c.id k
          ≡ ok r)
  unfolding act_on
  perform-answers c k formats =
      let (name, p) = formats c.id in
      (act_at cgroups format c.type name k, perform-act_on c.type c.id k ∙ rw p refl)

  perform_all-Kept :
      (cs : List (KillerCommand I)) (k : KillerImpl W)
      → Formats k.pattern
      → contains k.unprotected n ≡ false
      → (k' : KillerImpl W) × (perform_all (killer_impl cgroups format) cs k ≡ ok k')
        × (view k'.groups ≡ view k.groups)
  unfolding perform_all
  perform_all-Kept [] k formats h = (k, refl, refl)
  perform_all-Kept (c ∷ cs) k formats h =
      let ((s, mid), p) = perform-answers c k formats in
      let (same, pattern, seen) = perform-Kept c k h p in
      let (k', q, seen') =
        perform_all-Kept cs mid (subst Formats (sym pattern) formats)
          (ap (λ x. contains x n) same ∙ h) in
      (k', rw p q, seen' ∙ seen)

  -- None of the identifiers has the name `n`.
  abbrev pub NoneNamed : Bytes → List I → Type 0
  NoneNamed pattern ids = All (λ id. format pattern id ≢ ok n) ids

  names_of-lacks :
      (pattern : Bytes) (ids : List I) {names : List Bytes}
      → NoneNamed pattern ids
      → names_of cgroups format pattern ids ≡ ok names
      → contains names n ≡ false
  unfolding names_of
  names_of-lacks pattern [] h e = ap (λ x. contains x n) (sym (ok-injective e))
  names_of-lacks pattern (id ∷ ids) (apart, h) e =
      let (name, p, f) = >>=-eq-ok (format pattern id) _ e in
      let (names, q, g) = >>=-eq-ok (names_of cgroups format pattern ids) _ f in
      let others = names_of-lacks pattern ids h q in
      subst (λ x. contains x n ≡ false) (ok-injective g)
        (elim (Bool-cases (same_name name n)) [
          | inl c ↦ absurd (apart (p ∙ ap ok (same_name-eq name n c)))
          | inr d ↦ rw (d, others) refl
        ])

  -- A new killer protects its own group, and those that are not named by an unprotected process.
  pub new_killer-contains :
      (options : KillerOptions I) (this : Bytes) (w : W) {k : KillerImpl W}
      → (n ≡ this) ⊎ NoneNamed options.pattern options.unprotected
      → new_killer cgroups format options this w ≡ ok k
      → (contains k.unprotected n ≡ false) × (k.pattern ≡ options.pattern) × (k.groups ≡ w)
  unfolding new_killer
  new_killer-contains options this w which e =
      let (names, p, f) =
        >>=-eq-ok (names_of cgroups format options.pattern options.unprotected) _ e in
      subst
        (λ (x : KillerImpl W).
          (contains x.unprotected n ≡ false) × (x.pattern ≡ options.pattern) × (x.groups ≡ w))
        (ok-injective f)
        (
          elim which [
            | inl own ↦ ap (contains (erase names this)) own ∙ contains-erase names this
            | inr alone ↦
                contains-erase_le names this n
                  (names_of-lacks options.pattern options.unprotected alone p)
          ],
          refl,
          refl,
        )

  names_of-runs :
      (pattern : Bytes) (ids : List I)
      → Formats pattern
      → (names : List Bytes) × (names_of cgroups format pattern ids ≡ ok names)
  unfolding names_of
  names_of-runs pattern [] formats = ([], refl)
  names_of-runs pattern (id ∷ ids) formats =
      let (name, p) = formats id in
      let (names, q) = names_of-runs pattern ids formats in (name ∷ names, rw (p, q) refl)

  -- A new killer whose pattern has a place for every identifier can be made, and whatever commands
  -- it gets, it answers all of them, and a control group that is its own or is not named by an
  -- unprotected process looks behind them as it did before, if a call on one group does not change
  -- how another one looks.
  pub new_killer-safe :
      (options : KillerOptions I) (this : Bytes) (w : W) (cs : List (KillerCommand I))
      → Formats options.pattern
      → (n ≡ this) ⊎ NoneNamed options.pattern options.unprotected
      → (k₀ : KillerImpl W) × (k : KillerImpl W) × (new_killer cgroups format options this w
          ≡ ok k₀)
        × (perform_all (killer_impl cgroups format) cs k₀ ≡ ok k)
        × (view k.groups ≡ view w)
  unfolding new_killer
  new_killer-safe options this w cs formats which =
      let (names, p) = names_of-runs options.pattern options.unprotected formats in
      let k₀ : KillerImpl W = record {
        unprotected = erase names this;
        pattern = options.pattern;
        groups = w;
      } in
      let made : new_killer cgroups format options this w ≡ ok k₀ = rw p refl in
      let (held, pattern, same) = new_killer-contains options this w which made in
      let (k, e, seen) = perform_all-Kept cs k₀ formats held in
      (k₀, k, made, e, seen ∙ ap view same)
