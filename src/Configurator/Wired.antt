-- ===== src/Configurator/Wired.antt =====
-- What a `configure` of src/lib/Configurator.cpp that returns has made of the processes, and what
-- src/bin/broker.cpp reads in the file that it wrote.
use deprecated_yandex_contes.Base.{
  ℕ, ◌<◌, false, [], ◌∷◌, Option, some, Bytes, map, length, ok, ◌≡◌, ◌≢◌, refl, sym, ap, subst, ◌∙◌,
  arith,
}
use deprecated_yandex_contes.Invoker.{Stream, file, Settings, Entry, IsProcess, IsFiles}
use deprecated_yandex_contes.Text.Json.{IsJson}
use deprecated_yandex_contes.Broker.State.{Process}
use deprecated_yandex_contes.Broker.Options.{serialize, read_options}
use deprecated_yandex_contes.Configurator.{Configurator, Wiring, Libraries, configure, root}
use deprecated_yandex_contes.Configurator.Pipes.{
  Connected-Below, Made, connect-Made, connect_all-MadeAll,
}
use deprecated_yandex_contes.Configurator.Spec.{
  Connected, Below, ConnectedAll, numbered, Wired, secret,
}
use deprecated_yandex_contes.Configurator.Steps.{
  Steps, set_up-Steps, configure-fresh, dump_options-secret, first_wiring, rooted, logged, counted,
  options_of,
}

module _ {I Pi P G F : Type 0} (lib : Libraries I Pi P G F) (laws : IsProcess lib.process) where
  -- The same standard streams and the same identifier.
  abbrev Alike : P → P → Type 0
  Alike a b =
      ((lib.process.look b).streams 0 ≡ (lib.process.look a).streams 0)
      × ((lib.process.look b).streams 1 ≡ (lib.process.look a).streams 1)
      × ((lib.process.look b).id ≡ (lib.process.look a).id)

  Connected-Alike :
      (streams : ℕ → Option (Stream Pi)) (cfg : Process I) (a b : P)
      → Alike a b
      → Connected streams cfg (lib.process.look a)
      → Connected streams cfg (lib.process.look b)
  Connected-Alike streams cfg a b (zero_same, one_same, id_same) (input, output, x, y, z, t, u) =
      (input, output, zero_same ∙ x, one_same ∙ y, z, t, u ∙ sym id_same)

  logged-Alike : (log : Bytes) (proc : P) → Alike proc (logged lib log proc)
  logged-Alike log proc = rw (laws.look-set_stream 2 (file log) proc) (refl, refl, refl)

  rooted-Alike : (log : Bytes) (proc : P) → Alike proc (rooted lib log proc)
  rooted-Alike log proc =
      rw (laws.look-set_owner_id root (logged lib log proc)) (logged-Alike log proc)

  arguments-Alike : (a b : Bytes) (proc : P) → Alike proc (lib.process.set_arguments a b proc)
  arguments-Alike a b proc = rw (laws.look-set_arguments a b proc) (refl, refl, refl)

  Alike-trans : (a b d : P) → Alike a b → Alike b d → Alike a d
  Alike-trans a b d (x, y, z) (x', y', z') = (x' ∙ x, y' ∙ y, z' ∙ z)

  -- A process that was connected before the wiring went on.
  Connected-later :
      (proc proc' later : P) (cfg : Process I) (w w' : Wiring P G) (after : ℕ → Option (Stream Pi))
      → Made lib proc w (proc', cfg, w')
      → Alike proc' later
      → Below w'.broker_fd (lib.process.look w'.broker).streams after
      → Connected after cfg (lib.process.look later)
  Connected-later proc proc' later cfg w w' after (wired, ends, next, _, _) alike below =
      let low : cfg.ends.in_fd < w'.broker_fd = rw (ends, next) (omega arith) in
      let high : cfg.ends.out_fd < w'.broker_fd = rw (ends, next) (omega arith) in
      Connected-Alike after cfg proc' later alike (
        Connected-Below w'.broker_fd (lib.process.look w'.broker).streams after cfg
          (lib.process.look proc') wired low high below)

  Steps-ConnectedAll :
      (bc kc : Bytes) (c c' : Configurator P G F) (s : Steps lib bc kc c c')
      → Alike s.killer s.killer'
      → ConnectedAll lib
          (lib.process.look s.w₃.broker).streams
          (s.killer_cfg ∷ s.judge_cfg ∷ s.cfgs)
          (s.killer'
            ∷ counted lib (length c.solutions) (logged lib c.judge_log s.judge)
            ∷ s.solutions)
        × (map (λ (cfg : Process I). cfg.ends) (s.killer_cfg ∷ s.judge_cfg ∷ s.cfgs)
            ≡ numbered 3 (c.killer ∷ c.judge ∷ c.solutions))
  Steps-ConnectedAll bc kc c c' s alike₀ =
      let first = connect-Made lib laws c.killer (first_wiring lib c) s.killer_step in
      let second = connect-Made lib laws c.judge s.w₁ s.judge_step in
      let rest = connect_all-MadeAll lib laws c.solutions s.w₂ s.solutions_step in
      let (_, ends, next, _, _) = first in
      let (_, ends', next', below', _) = second in
      let (wired, ends_all, _, below_all, _) = rest in
      let after = (lib.process.look s.w₃.broker).streams in
      let log = logged lib c.judge_log s.judge in
      let count = counted lib (length c.solutions) log in
      let alike : Alike s.judge count =
        Alike-trans s.judge log count (logged-Alike c.judge_log s.judge) (
          arguments-Alike (lib.process.look log).executable
            (lib.size_to_string (length c.solutions)) log) in
      (
        (
          Connected-later c.killer s.killer s.killer' s.killer_cfg (first_wiring lib c) s.w₁ after
              first alike₀ (λ m lt. below_all m (omega (arith, next', lt)) ∙ below' m lt),
          (
            Connected-later c.judge s.judge count s.judge_cfg s.w₁ s.w₂ after second alike
                below_all,
            wired,
          ),
        ),
        rw (ends, ends', ends_all, next', next) refl,
      )

  module _ (files : IsFiles lib.filesystem) where
    Steps-broker :
        (bc kc : Bytes) (c c' : Configurator P G F) (s : Steps lib bc kc c c')
        → lib.filesystem.keep_in_root bc ≢ lib.filesystem.keep_in_root kc
        → (lib.filesystem.entry s.files₂ bc
            ≡ secret
                (lib.broker_json.write
                  (serialize (options_of lib c s.killer_cfg s.judge_cfg s.cfgs)))
                (lib.process.look s.w₃.broker).owner)
          × (lib.process.look s.broker ≡ record (lib.process.look s.w₃.broker) {
            arguments = (lib.process.look s.w₃.broker).executable ∷ bc ∷ [];
          })
          × Alike s.killer s.killer'
    Steps-broker bc kc c c' s ne =
        let json =
          lib.broker_json.write (serialize (options_of lib c s.killer_cfg s.judge_cfg s.cfgs)) in
        let (mine, _, who) =
          dump_options-secret lib files c.files s.w₃.broker json bc s.broker_file in
        let rooted_killer = rooted lib c.killer_log s.killer in
        let (_, others, killer_who) =
          dump_options-secret lib files s.files₁ rooted_killer _ kc s.killer_file in
        (
          others bc ne ∙ mine,
          ap lib.process.look who
              ∙ laws.look-set_arguments (lib.process.look s.w₃.broker).executable bc s.w₃.broker,
          Alike-trans s.killer rooted_killer s.killer' (rooted-Alike c.killer_log s.killer) (
              rw killer_who
                (arguments-Alike (lib.process.look rooted_killer).executable kc rooted_killer)),
        )

    Steps-Wired :
        (json : IsJson lib.broker_json) (bc kc : Bytes) (c c' : Configurator P G F)
        (s : Steps lib bc kc c c')
        → lib.filesystem.keep_in_root bc ≢ lib.filesystem.keep_in_root kc
        → Wired lib bc c c'
    unfolding read_options
    Steps-Wired json bc kc c c' s ne =
        let (entry, looks, alike) = Steps-broker bc kc c c' s ne in
        let (wired, ends) = Steps-ConnectedAll bc kc c c' s alike in
        let options = options_of lib c s.killer_cfg s.judge_cfg s.cfgs in
        let judge = counted lib (length c.solutions) (logged lib c.judge_log s.judge) in
        subst (Wired lib bc c) (sym s.done) (
          record options { default_argument = [] },
          (
            rw (ap (λ (x : Entry). x.content) entry, json.reads (serialize options)) refl,
            (refl, refl, refl, refl),
            subst
                (λ x.
                  ConnectedAll lib x (s.killer_cfg ∷ s.judge_cfg ∷ s.cfgs)
                    (s.killer' ∷ judge ∷ s.solutions))
                (sym (ap (λ (x : Settings I Pi). x.streams) looks)) wired,
            ap (λ (x : Entry). x.owner) entry
                ∙ ap (λ (x : Settings I Pi). some x.owner) (sym looks),
            ap (λ (x : Entry). x.mode) entry,
            ap (λ (x : Settings I Pi). x.arguments) looks
                ∙ ap (λ (x : Settings I Pi). x.executable ∷ bc ∷ []) (sym looks),
            ends,
          ),
        )

    -- After a first configure that returns, with two paths of different files, where the invoker
    -- library and the JSON files behave as documented, the file at the first path holds, but for
    -- the default tokenizer argument, the options of the configurator: the descriptors of the
    -- killer, the judge and the solutions are consecutive from 3 on, and each pair holds in the
    -- broker the other ends of the two pipes on the standard input and output of the process of
    -- that identifier. The file has the owner of the broker, who alone may read it, and is the
    -- argument of the broker.
    pub configure-Wired :
        (json : IsJson lib.broker_json) (bc kc : Bytes) (c c' : Configurator P G F)
        → c.configured ≡ false
        → lib.filesystem.keep_in_root bc ≢ lib.filesystem.keep_in_root kc
        → configure lib bc kc c ≡ ok c'
        → Wired lib bc c c'
    configure-Wired json bc kc c c' fresh ne e =
        Steps-Wired json bc kc c c'
          (set_up-Steps lib bc kc c (sym (configure-fresh lib bc kc c fresh) ∙ e)) ne
