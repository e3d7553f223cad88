-- ===== src/Killer/Process/Safe.antt =====
-- The process of src/bin/killer.cpp leaves protected control groups alone, whatever it reads.
use deprecated_yandex_contes.Base.{
  ℕ, zero, suc, false, [], ◌∷◌, Bytes, All, Result, refl, ok, >>=-eq-ok, ok-injective, Result-cases,
  Bool-cases, take, ◌⊎◌, inl, inr, ◌≡◌, ◌≢◌, ap, subst, ◌∙◌,
}
use deprecated_yandex_contes.Text.Streams.{OStream}
use deprecated_yandex_contes.Text.Json.{Json}
use deprecated_yandex_contes.Killer.{KillerAction, KillerCommand, KillerStatus, perform}
use deprecated_yandex_contes.Killer.Impl.{
  ControlGroups, KillerOptions, KillerImpl, contains, new_killer, killer_impl,
}
use deprecated_yandex_contes.Killer.Impl.Safety.{perform-Kept, new_killer-contains}
use deprecated_yandex_contes.Killer.Stream.{Pods, send_bytes, recv_bytes, run, run_once, serve}
use deprecated_yandex_contes.Killer.Process.{World, read_options, start, main}

module _ {I W X : Type 0} (cgroups : ControlGroups W) (format : Bytes → I → Result Bytes)
    (view : W → X) (n : Bytes)
    (frame : (action : KillerAction) (m : Bytes) (w : W)
      → m ≢ n
      → view (cgroups.act action m w).1 ≡ view w)
    (pods : Pods I) where
  -- The group `n` is protected, and looks as it did in `w`.
  abbrev Held : W → KillerImpl W → Type 0
  Held w k = (contains k.unprotected n ≡ false) × (view k.groups ≡ view w)

  perform-Held :
      (w : W) (command : KillerCommand I) (k : KillerImpl W) {r : KillerStatus × KillerImpl W}
      → Held w k
      → perform (killer_impl cgroups format) command.type command.id k ≡ ok r
      → Held w r.1
  perform-Held w command k (kept, seen) e =
      let (names, _, looks) = perform-Kept cgroups format view n frame command k kept e in
      (ap (λ x. contains x n) names ∙ kept, looks ∙ seen)

  run-Held :
      (w : W) (command : KillerCommand I) (k : KillerImpl W) (out : OStream)
      {r : KillerImpl W × OStream}
      → Held w k
      → run pods (killer_impl cgroups format) command k out ≡ ok r
      → Held w r.0
  unfolding run
  run-Held w command k out held e =
      let ((s, k₁), q, h) =
        >>=-eq-ok (perform (killer_impl cgroups format) command.type command.id k) _ e in
      let (_, _, i) = >>=-eq-ok (send_bytes pods.status s out) _ h in
      subst (λ (x : KillerImpl W × OStream). Held w x.0) (ok-injective i)
        (perform-Held w command k held q)

  run_once-Held :
      (w : W) (input : Bytes) (k : KillerImpl W) (out : OStream)
      {r : KillerImpl W × Bytes × OStream}
      → Held w k
      → run_once pods (killer_impl cgroups format) input k out ≡ ok r
      → Held w r.0
  unfolding run_once
  run_once-Held w input k out {r} held e =
      let ((command, input'), _, f) = >>=-eq-ok (recv_bytes pods.command input) _ e in
      elim (Bool-cases (pods.command.known (take pods.command.size input))) [
        | inl c ↦
            let ((k', out'), p, g) =
              >>=-eq-ok (run pods (killer_impl cgroups format) command k out) _ (rw c at f) in
            subst (λ (x : KillerImpl W × Bytes × OStream). Held w x.0) (ok-injective g)
              (run-Held w command k out held p)
        | inr d ↦
            subst (λ (x : KillerImpl W × Bytes × OStream). Held w x.0)
              (ok-injective {a = (k, input', out)} (rw d at f)) held
      ]

  serve-Held :
      (w : W) (fuel : ℕ) (input : Bytes) (k : KillerImpl W) (out : OStream)
      → Held w k
      → Held w (serve pods (killer_impl cgroups format) fuel input k out).1
  unfolding serve
  serve-Held w zero input k out held = held
  serve-Held w (suc fuel) input k out held =
      elim (Result-cases (run_once pods (killer_impl cgroups format) input k out)) [
        | inl (e, p) ↦ rw (p, serve) held
        | inr ((k', input', out'), p) ↦
            rw (p, serve) (serve-Held w fuel input' k' out' (run_once-Held w input k out held p))
      ]

  -- Whatever the process reads and however long it runs, a control group that is its own or is
  -- not named by an unprotected process of the options in its file looks as it did before, if a
  -- call on one group does not change how another one looks.
  pub main-safe :
      (json : Json (KillerOptions I)) (fuel : ℕ) (world : World W) (program path : Bytes)
      (options : KillerOptions I)
      → read_options json (world.file path) ≡ ok options
      → (n ≡ world.this) ⊎ All (λ id. format options.pattern id ≢ ok n) options.unprotected
      → view (main json cgroups format pods fuel world (program ∷ path ∷ [])).1 ≡ view world.groups
  unfolding main start
  main-safe json fuel world program path options read which =
      elim (Result-cases (new_killer cgroups format options world.this world.groups)) [
        | inl (e, p) ↦ rw (main, read, p) refl
        | inr (k, p) ↦
            let (kept, _, same) =
              new_killer-contains cgroups format view n frame options world.this world.groups which
                p in
            let (_, seen) =
              serve-Held world.groups fuel world.input k world.output (kept, ap view same) in
            rw (main, read, p) seen
      ]
