-- ===== src/Configurator/Guarded.antt =====
-- The files that src/lib/Configurator.cpp writes are secret, and the killer that runs on its one
-- protects everything but the solutions.
use deprecated_yandex_contes.Base.{
  ℕ, false, [], ◌∷◌, Bytes, All, Result, length, ok, ◌≡◌, ◌≢◌, ◌⊎◌, refl, sym, ap, subst, ◌∙◌,
}
use deprecated_yandex_contes.Invoker.{Entry, IsProcess, IsFiles}
use deprecated_yandex_contes.Text.Json.{IsJson}
use deprecated_yandex_contes.Killer.{KillerAction}
use deprecated_yandex_contes.Killer.Impl.{ControlGroups}
use deprecated_yandex_contes.Killer.Stream.{Pods}
use deprecated_yandex_contes.Killer.Process.{World, read_options, main}
use deprecated_yandex_contes.Killer.Process.Safe.{main-safe}
use deprecated_yandex_contes.Configurator.{
  Configurator, Libraries, configure, root, default_pattern,
}
use deprecated_yandex_contes.Configurator.Pipes.{connect_all-MadeAll}
use deprecated_yandex_contes.Configurator.Spec.{secret, ids, killer_options, Guarded}
use deprecated_yandex_contes.Configurator.Steps.{
  Steps, set_up-Steps, configure-fresh, dump_options-secret, rooted, logged,
}

module _ {I Pi P G F : Type 0} (lib : Libraries I Pi P G F) (laws : IsProcess lib.process)
    (files : IsFiles lib.filesystem) where
  arguments_self :
      (text : Bytes) (proc : P)
      → (lib.process.look
          (lib.process.set_arguments (lib.process.look proc).executable text proc)).arguments
        ≡ (lib.process.look
            (lib.process.set_arguments (lib.process.look proc).executable text proc)).executable
          ∷ text
          ∷ []
  arguments_self text proc =
      rw (laws.look-set_arguments (lib.process.look proc).executable text proc) refl

  owner-arguments :
      (a b : Bytes) (proc : P)
      → (lib.process.look (lib.process.set_arguments a b proc)).owner
        ≡ (lib.process.look proc).owner
  owner-arguments a b proc = rw (laws.look-set_arguments a b proc) refl

  owner-rooted : (log : Bytes) (proc : P) → (lib.process.look (rooted lib log proc)).owner ≡ root
  owner-rooted log proc = rw (laws.look-set_owner_id root (logged lib log proc)) refl

  Steps-Guarded :
      (bc kc : Bytes) (c c' : Configurator P G F) (s : Steps lib bc kc c c') → Guarded lib kc c c'
  Steps-Guarded bc kc c c' s =
      let proc = rooted lib c.killer_log s.killer in
      let log = logged lib c.judge_log s.judge in
      let owner = owner-rooted c.killer_log s.killer in
      let (_, _, unprotected, _, free) =
        connect_all-MadeAll lib laws c.solutions s.w₂ s.solutions_step in
      let (entry, _, who) = dump_options-secret lib files s.files₁ proc _ kc s.killer_file in
      let exe = (lib.process.look proc).executable in
      let named : secret
            (lib.killer_json.write
              (record { unprotected = s.unprotected; pattern = default_pattern }))
            (lib.process.look proc).owner
          ≡ secret (lib.killer_json.write (killer_options lib c)) root =
        rw (owner, unprotected) refl in
      subst (Guarded lib kc c) (sym s.done) (
        entry ∙ named,
        subst (λ x. (lib.process.look x).owner ≡ root) (sym who)
            (owner-arguments exe kc proc ∙ owner),
        subst (λ x. (lib.process.look x).arguments ≡ (lib.process.look x).executable ∷ kc ∷ [])
            (sym who) (arguments_self kc proc),
        arguments_self (lib.size_to_string (length c.solutions)) log,
        free,
      )

  -- After a first configure that returns, where the invoker library behaves as documented, the
  -- killer and its file belong to root, who alone may read the file; it holds the identifiers of
  -- the solutions and the default pattern and is the argument of the killer; the judge gets the
  -- number of solutions; and the solutions may crash and be left behind.
  pub configure-Guarded :
      (bc kc : Bytes) (c c' : Configurator P G F)
      → c.configured ≡ false
      → configure lib bc kc c ≡ ok c'
      → Guarded lib kc c c'
  configure-Guarded bc kc c c' fresh e =
      Steps-Guarded bc kc c c'
        (set_up-Steps lib bc kc c (sym (configure-fresh lib bc kc c fresh) ∙ e))

  module _ {W X : Type 0} (cgroups : ControlGroups W) (format : Bytes → I → Result Bytes)
      (view : W → X) (n : Bytes)
      (frame : (action : KillerAction) (m : Bytes) (w : W)
        → m ≢ n
        → view (cgroups.act action m w).1 ≡ view w)
      (pods : Pods I) (json : IsJson lib.killer_json) where
    -- After a first configure that returns, the process of the killer, run with its arguments on
    -- the files that configure left, leaves a control group that is its own or is not named by a
    -- solution as it looked, whatever it reads and however long it runs, if a call on one group
    -- does not change how another one looks, and the invoker library and the JSON files behave as
    -- documented.
    pub configure-main :
        (bc kc : Bytes) (c c' : Configurator P G F) (fuel : ℕ) (world : World W)
        → c.configured ≡ false
        → configure lib bc kc c ≡ ok c'
        → ((path : Bytes) → world.file path ≡ (lib.filesystem.entry c'.files path).content)
        → (n ≡ world.this) ⊎ All (λ id. format default_pattern id ≢ ok n) (ids lib c.solutions)
        → view
            (main lib.killer_json cgroups format pods fuel world
              (lib.process.look c'.killer).arguments).1
          ≡ view world.groups
    unfolding read_options
    configure-main bc kc c c' fuel world fresh e on_disk which =
        let (entry, _, arguments, _, _) = configure-Guarded bc kc c c' fresh e in
        let content = on_disk kc ∙ ap (λ (x : Entry). x.content) entry in
        subst
          (λ argv.
            view (main lib.killer_json cgroups format pods fuel world argv).1 ≡ view world.groups)
          (sym arguments)
          (main-safe cgroups format view n frame pods lib.killer_json fuel world
            (lib.process.look c'.killer).executable kc (killer_options lib c)
            (rw (content, json.reads (killer_options lib c)) refl) which)
