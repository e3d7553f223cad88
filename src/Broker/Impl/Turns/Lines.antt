-- ===== src/Broker/Impl/Turns/Lines.antt =====
-- Iterations with the tokenizer of src/tokenizers/split_char.c give the lines of the output of a
-- solution.
use deprecated_yandex_contes.Base.{
  ℕ, true, false, List, [], ◌∷◌, ◌++◌, some, Bytes, drop, get_elem?, ◌==◌, ok, >>=-eq-ok,
  ok-injective, Bool-cases, ◌≡◌, ◌≢◌, refl, sym, ap, subst, ◌∙◌, inl, inr, arith, append-nil,
  append_assoc,
}
use deprecated_yandex_contes.Tokenizer.{instance_of}
use deprecated_yandex_contes.Tokenizer.SplitChar.{SplitChar, split_char}
use deprecated_yandex_contes.Tokenizer.SplitChar
use deprecated_yandex_contes.Tokenizer.SplitChar.Contract.{split_char-IsTokenizer}
use deprecated_yandex_contes.Tokenizer.SplitChar.Lines.{
  break_at, first_lines, tokenize-break_at, first_lines-cons,
}
use deprecated_yandex_contes.Killer.{KillerOps}
use deprecated_yandex_contes.Broker.Types.{BrokerResult, ok_status}
use deprecated_yandex_contes.Broker.State.{Solution, BrokerImpl}
use deprecated_yandex_contes.Broker.Impl.Flow.{taken_of}
use deprecated_yandex_contes.Broker.Impl.Turn.{iteration, iteration-Tokenized}
use deprecated_yandex_contes.Broker.Impl.Turns.{
  Turn, turns, payloads_of, seps_of, AllOk, iteration-Untouched,
}

module _ {I K : Type 0} (killer : KillerOps I K) (id : ℕ) where
  -- From `b` to `b'`, the results give the lines of the output that was left and the bytes read
  -- since, and what stands behind these lines is left.
  abbrev pub Reads :
      BrokerImpl I SplitChar K → List (Turn × BrokerResult) → BrokerImpl I SplitChar K → Type 0
  Reads b rs b' =
      (sol sol' : Solution I SplitChar) × (bytes : Bytes) × (get_elem? b.solutions id ≡ some sol)
      × (get_elem? b'.solutions id ≡ some sol')
      × (first_lines (seps_of id rs) (sol.outbuf ++ bytes) ≡ some (payloads_of id rs, sol'.outbuf))
      × (taken_of id b'.traffic ≡ taken_of id b.traffic ++ bytes)

  Reads-nil :
      (b : BrokerImpl I SplitChar K) (sol : Solution I SplitChar)
      → get_elem? b.solutions id ≡ some sol
      → Reads b [] b
  unfolding first_lines
  Reads-nil b sol at = (
    sol,
    sol,
    [],
    at,
    at,
    ap (λ x. some ([], x)) (append-nil sol.outbuf),
    sym (append-nil (taken_of id b.traffic)),
  )

  -- An iteration of another solution adds nothing.
  Reads-other :
      (t : Turn) (r : BrokerResult) (rs : List (Turn × BrokerResult))
      (b b₁ b₂ : BrokerImpl I SplitChar K)
      → (t.id == id) ≡ false
      → (get_elem? b₁.solutions id ≡ get_elem? b.solutions id)
        × (taken_of id b₁.traffic ≡ taken_of id b.traffic)
      → Reads b₁ rs b₂
      → Reads b ((t, r) ∷ rs) b₂
  Reads-other t r rs b b₁ b₂ other (same, still) (sol, sol', bytes, at, at', lines, moved) =
      (sol, sol', bytes, sym same ∙ at, at', rw other lines, moved ∙ ap (λ x. x ++ bytes) still)

  -- An iteration of the solution with the status ok gives a line.
  abbrev Line :
      Turn
      → BrokerResult
      → Solution I SplitChar
      → BrokerImpl I SplitChar K
      → BrokerImpl I SplitChar K
      → Type 0
  Line t r sol b b₁ =
      (mid : Solution I SplitChar) × (bytes : Bytes) × (get_elem? b₁.solutions id ≡ some mid)
      × (break_at t.sep (sol.outbuf ++ bytes) ≡ some (r.payload, mid.outbuf))
      × (taken_of id b₁.traffic ≡ taken_of id b.traffic ++ bytes)

  iteration-Line :
      (t : Turn) (r : BrokerResult) (b b₁ : BrokerImpl I SplitChar K) {sol : Solution I SplitChar}
      → get_elem? b.solutions id ≡ some sol
      → iteration (split_char true) killer id (t.sep ∷ []) t.limits t.msgs t.env t.discard b
        ≡ ok (r, b₁)
      → r.status ≡ ok_status
      → Line t r sol b b₁
  unfolding instance_of SplitChar.new
  iteration-Line t r b b₁ {sol} at run good =
      let (bytes, (n, t', mid, found, _, token, at₁, kept, _), moved) =
        iteration-Tokenized (split_char true) (λ _. Unit {0}) (record { sep = t.sep }) killer
          (split_char-IsTokenizer true) id (t.sep ∷ []) t.limits t.msgs t.env t.discard b at refl tt
          run good in
      let whole = sol.outbuf ++ bytes in
      (
        mid,
        bytes,
        at₁,
        tokenize-break_at true (record { sep = t.sep }) t' whole n found
            ∙ ap (λ x. some (x, drop n whole)) (sym token)
            ∙ ap (λ x. some (r.payload, x)) (sym kept),
        moved,
      )

  Reads-line :
      (t : Turn) (r : BrokerResult) (rs : List (Turn × BrokerResult))
      (b b₁ b₂ : BrokerImpl I SplitChar K) {sol : Solution I SplitChar}
      → (t.id == id) ≡ true
      → get_elem? b.solutions id ≡ some sol
      → Line t r sol b b₁
      → Reads b₁ rs b₂
      → Reads b ((t, r) ∷ rs) b₂
  Reads-line t r rs b b₁ b₂ {sol} this at (mid, bytes, at₁, line, moved₁)
        (last, sol', more, last_at, at', lines, moved) =
      let who : last ≡ mid = cc in
      let lines' =
        subst
          (λ (x : Solution I SplitChar).
            first_lines (seps_of id rs) (x.outbuf ++ more) ≡ some (payloads_of id rs, sol'.outbuf))
          who lines in
      let whole = sol.outbuf ++ bytes in
      (
        sol,
        sol',
        bytes ++ more,
        at,
        at',
        rw (this, sym (append_assoc sol.outbuf bytes more))
            (first_lines-cons t.sep (seps_of id rs) whole more line lines'),
        moved ∙ ap (λ x. x ++ more) moved₁ ∙ append_assoc (taken_of id b.traffic) bytes more,
      )

  -- Where iterations of the solutions run one after another, in any order, with the tokenizer of
  -- split_char.c, and those of one solution end with the status ok, their payloads are the first
  -- lines of its output, each with the byte that its begin names as the end, and what stands behind
  -- them is left: its output is what was left before and the bytes read from it since, however it
  -- is cut, and whatever happens to the other solutions. The solution exists.
  pub turns-lines :
      (ts : List Turn) (b b' : BrokerImpl I SplitChar K) {sol : Solution I SplitChar}
      (rs : List (Turn × BrokerResult))
      → get_elem? b.solutions id ≡ some sol
      → turns (split_char true) killer ts b ≡ ok (rs, b')
      → AllOk id rs
      → Reads b rs b'
  unfolding turns
  turns-lines [] b b' {sol} rs at e good =
      subst (λ (x : List (Turn × BrokerResult) × BrokerImpl I SplitChar K). Reads b x.0 x.1)
        (ok-injective e) (Reads-nil b sol at)
  turns-lines (t ∷ ts) b b' {sol} rs at e good =
      let ((r, b₁), p, f) =
        >>=-eq-ok
          (iteration (split_char true) killer t.id (t.sep ∷ []) t.limits t.msgs t.env t.discard b) _
          e in
      let ((rs', b₂), q, g) = >>=-eq-ok (turns (split_char true) killer ts b₁) _ f in
      let (fine, good') =
        subst (λ (x : List (Turn × BrokerResult) × BrokerImpl I SplitChar K). AllOk id x.0)
          (sym (ok-injective g)) good in
      subst (λ (x : List (Turn × BrokerResult) × BrokerImpl I SplitChar K). Reads b x.0 x.1)
        (ok-injective g)
        (elim (Bool-cases (t.id == id)) [
          | inl this ↦
              let same : t.id ≡ id = ground arith in
              let run =
                subst
                  (λ j.
                    iteration (split_char true) killer j (t.sep ∷ []) t.limits t.msgs t.env
                      t.discard b
                    ≡ ok (r, b₁))
                  same p in
              let line = iteration-Line t r b b₁ at run (fine same) in
              Reads-line t r rs' b b₁ b₂ this at line (turns-lines ts b₁ b₂ rs' line.2 q good')
          | inr other ↦
              let ne : t.id ≢ id = ground arith in
              let away =
                iteration-Untouched (split_char true) killer id t.id (t.sep ∷ []) t.limits t.msgs
                  t.env t.discard b ne p in
              Reads-other t r rs' b b₁ b₂ other away
                (turns-lines ts b₁ b₂ rs' (away.0 ∙ at) q good')
        ])
