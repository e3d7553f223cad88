-- ===== src/Configurator/Started.antt =====
-- The broker's process, src/bin/broker.cpp, on what src/lib/Configurator.cpp has left for it.
use deprecated_yandex_contes.Base.{
  ℕ, false, [], ◌∷◌, some, Option-cases, get_elem?, Bytes, ok, err, assertion, or_throw,
  system_error, ◌>>=◌, >>=-eq-ok, ok-injective, Bool-cases, inl, inr, ◌≡◌, ◌≢◌, refl, sym, ap, ◌∙◌,
}
use deprecated_yandex_contes.Invoker.{IsProcess, IsFiles}
use deprecated_yandex_contes.Text.Json.{Json, IsJson}
use deprecated_yandex_contes.Tokenizer.{TokenizerLibrary, DynamicLibrary, new_factory, instance_of}
use deprecated_yandex_contes.Killer.{KillerOps}
use deprecated_yandex_contes.Broker.State.{
  Options, BrokerImpl, is_null, Protocol, text_protocol, solution,
}
use deprecated_yandex_contes.Broker.Impl.{begin, begin_as, begin_with, new_broker}
use deprecated_yandex_contes.Broker.Impl.Fresh.{new_broker-start}
use deprecated_yandex_contes.Broker.Options.{SavedOptions, read_options}
use deprecated_yandex_contes.Broker.Process.{World, IoInterface, io_interface, start}
use deprecated_yandex_contes.Configurator.{Configurator, Libraries, configure}
use deprecated_yandex_contes.Configurator.Spec.{WiredBy}
use deprecated_yandex_contes.Configurator.Wired.{configure-Wired}

module _ {I T K : Type 0} (lib : TokenizerLibrary T) where
  -- A library that asserts against an empty argument.
  begin-asserts :
      (id : ℕ) (b : BrokerImpl I T K)
      → lib.new [] ≡ err assertion
      → b.default_argument ≡ []
      → begin lib id b ≡ err assertion
  unfolding begin begin_as begin_with solution instance_of
  begin-asserts id b refuses bare = elim (Option-cases (get_elem? b.solutions id)) [
    | inl n ↦ rw n refl
    | inr (sol, e) ↦ elim (Bool-cases (is_null sol.tokenizer)) [
      | inl c ↦ rw (e, c, bare, refuses) refl
      | inr d ↦ rw (e, d) refl
    ]
  ]

only_text : (p : Protocol) → p ≡ text_protocol
only_text text_protocol = refl

module _ {I T K D : Type 0} (json : Json (SavedOptions I)) (killer : KillerOps I K)
    (world : World T K D) where
  start-options :
      (program path : Bytes) (options : Options I) (dl : DynamicLibrary T)
      (tokenizers : TokenizerLibrary T)
      → read_options json (world.file path) ≡ ok options
      → world.library options.tokenizer ≡ some dl
      → new_factory dl ≡ ok tokenizers
      → start json killer world (program ∷ path ∷ []) ≡ (
          new_broker killer options world.fcntl world.descriptors world.status
            (world.killer (io_interface world options.killer))
            world.ahead
          >>= λ b. ok (tokenizers, b, io_interface world options.judge))
  unfolding start
  start-options program path options dl tokenizers read found loaded =
      rw (read, found, loaded, only_text options.protocol) refl

  start-argument :
      (program path : Bytes) (options : Options I) {tokenizers : TokenizerLibrary T}
      {b : BrokerImpl I T K} {judge : IoInterface}
      → read_options json (world.file path) ≡ ok options
      → start json killer world (program ∷ path ∷ []) ≡ ok (tokenizers, b, judge)
      → b.default_argument ≡ options.default_argument
  unfolding start new_broker
  start-argument program path options {b = b} read e =
      let f = rw (read, only_text options.protocol) at e in
      let (dl, _, g) = >>=-eq-ok (or_throw (world.library options.tokenizer) system_error) _ f in
      let (made, _, h) = >>=-eq-ok (new_factory dl) _ g in
      let (b₁, p, i) =
        >>=-eq-ok
          (new_broker killer options world.fcntl world.descriptors world.status
            (world.killer (io_interface world options.killer)) world.ahead)
          _ h in
      ap (λ (x : TokenizerLibrary T × BrokerImpl I T K × IoInterface). x.1.default_argument)
        (sym (ok-injective i))
      ∙ (new_broker-start killer world.fcntl options world.descriptors world.status
          (world.killer (io_interface world options.killer)) world.ahead p).2

module _ {I Pi P G F T K D : Type 0} (lib : Libraries I Pi P G F) (laws : IsProcess lib.process)
    (files : IsFiles lib.filesystem) (json : IsJson lib.broker_json) (killer : KillerOps I K)
    (bc kc : Bytes) (c c' : Configurator P G F) (world : World T K D) where
  -- After a first configure that returns, with two paths of different files, the process of the
  -- broker, run with its arguments on the files that configure left, reads options that are wired
  -- to the processes, comes to the constructor of BrokerImpl with them, and serves the descriptors
  -- of the judge, if the library of the tokenizer loads and has its functions, and the invoker
  -- library and the JSON files behave as documented.
  pub configure-start :
      (dl : DynamicLibrary T) (tokenizers : TokenizerLibrary T)
      → c.configured ≡ false
      → lib.filesystem.keep_in_root bc ≢ lib.filesystem.keep_in_root kc
      → configure lib bc kc c ≡ ok c'
      → ((path : Bytes) → world.file path ≡ (lib.filesystem.entry c'.files path).content)
      → world.library c.tokenizer ≡ some dl
      → new_factory dl ≡ ok tokenizers
      → (options : Options I) × WiredBy lib options bc c c'
        × (start lib.broker_json killer world (lib.process.look c'.broker).arguments ≡ (
            new_broker killer options world.fcntl world.descriptors world.status
              (world.killer (io_interface world options.killer))
              world.ahead
            >>= λ b. ok (tokenizers, b, io_interface world options.judge)))
  configure-start dl tokenizers fresh ne e on_disk found loaded =
      let (options, wired) = configure-Wired lib laws files json bc kc c c' fresh ne e in
      let (read, (_, named, _, _), _, _, _, arguments, _) = wired in
      (
        options,
        wired,
        ap (start lib.broker_json killer world) arguments
            ∙ start-options lib.broker_json killer world (lib.process.look c'.broker).executable bc
                options dl tokenizers (ap (read_options lib.broker_json) (on_disk bc) ∙ read)
                (ap world.library named ∙ found) loaded,
      )

  -- After a first configure that returns, with two paths of different files, in the new broker of
  -- the process that runs with its arguments on the files that configure left, a begin without a
  -- tokenizer argument fails with an assertion for every solution, whatever default argument the
  -- configurator has, if the library of the tokenizer asserts against the empty argument, and the
  -- invoker library and the JSON files behave as documented.
  pub configure-begin :
      (tokenizers : TokenizerLibrary T) (b : BrokerImpl I T K) (judge : IoInterface) (id : ℕ)
      → c.configured ≡ false
      → lib.filesystem.keep_in_root bc ≢ lib.filesystem.keep_in_root kc
      → configure lib bc kc c ≡ ok c'
      → ((path : Bytes) → world.file path ≡ (lib.filesystem.entry c'.files path).content)
      → start lib.broker_json killer world (lib.process.look c'.broker).arguments
        ≡ ok (tokenizers, b, judge)
      → tokenizers.new [] ≡ err assertion
      → begin tokenizers id b ≡ err assertion
  configure-begin tokenizers b judge id fresh ne e on_disk started refuses =
      let (options, wired) = configure-Wired lib laws files json bc kc c c' fresh ne e in
      let (read, (_, _, _, bare), _, _, _, arguments, _) = wired in
      begin-asserts tokenizers id b refuses (
        start-argument lib.broker_json killer world (lib.process.look c'.broker).executable bc
          options (ap (read_options lib.broker_json) (on_disk bc) ∙ read)
          (ap (start lib.broker_json killer world) (sym arguments) ∙ started)
        ∙ bare)
