-- ===== src/Configurator/Steps.antt =====
-- The steps of a `configure` of src/lib/Configurator.cpp that returns, and the files that it leaves.
use deprecated_yandex_contes.Base.{
  ℕ, true, false, List, some, Bytes, length, ok, >>=-eq-ok, ok-injective, ◌≡◌, ◌≢◌, refl, sym, ap,
  subst, ◌∙◌,
}
use deprecated_yandex_contes.Invoker.{file, Entry, IsFiles}
use deprecated_yandex_contes.Broker.State.{Process, Options}
use deprecated_yandex_contes.Broker.Options.{serialize}
use deprecated_yandex_contes.Configurator.Spec.{secret}
use deprecated_yandex_contes.Configurator.{
  Configurator, Wiring, Libraries, connect, connect_all, dump_options, set_up, configure,
  default_pattern, owner_reads, root,
}

module _ {I Pi P G F : Type 0} (lib : Libraries I Pi P G F) where
  -- The broker and the wiring that the first call of `connect` starts from.
  abbrev pub first_wiring : Configurator P G F → Wiring P G
  first_wiring c = record {
    group = c.group;
    broker = lib.process.set_stream 2 (file c.broker_log) c.broker;
    broker_fd = 3;
  }

  abbrev pub rooted : Bytes → P → P
  rooted log proc = lib.process.set_owner_id root (lib.process.set_stream 2 (file log) proc)

  abbrev pub logged : Bytes → P → P
  logged log proc = lib.process.set_stream 2 (file log) proc

  abbrev pub counted : ℕ → P → P
  counted n proc =
      lib.process.set_arguments (lib.process.look proc).executable (lib.size_to_string n) proc

  abbrev pub options_of : Configurator P G F → Process I → Process I → List (Process I) → Options I
  options_of c killer judge solutions = record {
    protocol = c.protocol;
    tokenizer = c.tokenizer;
    solutions = solutions;
    killer = killer;
    judge = judge;
    default_limits = c.default_limits;
    default_argument = c.default_argument;
  }

  -- What the calls within `configure` have returned, one after the other.
  pub record Steps (bc kc : Bytes) (c c' : Configurator P G F) : Type 0 where
    pub killer : P
    pub killer_cfg : Process I
    pub w₁ : Wiring P G
    pub judge : P
    pub judge_cfg : Process I
    pub w₂ : Wiring P G
    pub solutions : List P
    pub cfgs : List (Process I)
    pub unprotected : List I
    pub w₃ : Wiring P G
    pub files₁ : F
    pub broker : P
    pub files₂ : F
    pub killer' : P
    pub killer_step : connect lib c.killer (first_wiring c) ≡ ok (killer, killer_cfg, w₁)
    pub judge_step : connect lib c.judge w₁ ≡ ok (judge, judge_cfg, w₂)
    pub solutions_step : connect_all lib c.solutions w₂ ≡ ok (solutions, cfgs, unprotected, w₃)
    pub broker_file :
        dump_options lib c.files w₃.broker
          (lib.broker_json.write (serialize (options_of c killer_cfg judge_cfg cfgs)))
          bc
        ≡ ok (files₁, broker)
    pub killer_file :
        dump_options lib files₁
          (rooted c.killer_log killer)
          (lib.killer_json.write (record { unprotected = unprotected; pattern = default_pattern }))
          kc
        ≡ ok (files₂, killer')
    pub done : c' ≡ record c {
      files = files₂;
      group = w₃.group;
      broker = broker;
      killer = killer';
      judge = counted (length c.solutions) (logged c.judge_log judge);
      solutions = solutions;
      configured = true;
    }

  pub set_up-Steps :
      (bc kc : Bytes) (c : Configurator P G F) {c' : Configurator P G F}
      → set_up lib bc kc c ≡ ok c'
      → Steps bc kc c c'
  unfolding set_up
  set_up-Steps bc kc c e =
      let ((killer, killer_cfg, w₁), p₁, e₁) =
        >>=-eq-ok (connect lib c.killer (first_wiring c)) _ e in
      let ((judge, judge_cfg, w₂), p₂, e₂) = >>=-eq-ok (connect lib c.judge w₁) _ e₁ in
      let ((solutions, cfgs, unprotected, w₃), p₃, e₃) =
        >>=-eq-ok (connect_all lib c.solutions w₂) _ e₂ in
      let ((files₁, broker), p₄, e₄) =
        >>=-eq-ok
          (dump_options lib c.files w₃.broker
            (lib.broker_json.write (serialize (options_of c killer_cfg judge_cfg cfgs))) bc)
          _ e₃ in
      let ((files₂, killer'), p₅, e₅) =
        >>=-eq-ok
          (dump_options lib files₁ (rooted c.killer_log killer)
            (lib.killer_json.write
              (record { unprotected = unprotected; pattern = default_pattern }))
            kc)
          _ e₄ in
      record {
        killer = killer;
        killer_cfg = killer_cfg;
        w₁ = w₁;
        judge = judge;
        judge_cfg = judge_cfg;
        w₂ = w₂;
        solutions = solutions;
        cfgs = cfgs;
        unprotected = unprotected;
        w₃ = w₃;
        files₁ = files₁;
        broker = broker;
        files₂ = files₂;
        killer' = killer';
        killer_step = p₁;
        judge_step = p₂;
        solutions_step = p₃;
        broker_file = p₄;
        killer_file = p₅;
        done = sym (ok-injective e₅);
      }

  pub configure-fresh :
      (bc kc : Bytes) (c : Configurator P G F)
      → c.configured ≡ false
      → configure lib bc kc c ≡ set_up lib bc kc c
  unfolding configure
  configure-fresh bc kc c fresh =
      ap (λ b. elim b [ true ↦ ok c | false ↦ set_up lib bc kc c ]) fresh

  module _ (files : IsFiles lib.filesystem) where
    -- The file belongs to the process, who alone may read it, and is named by its argument.
    pub dump_options-secret :
        (f : F) (proc : P) (json path : Bytes) {r : F × P}
        → dump_options lib f proc json path ≡ ok r
        → (lib.filesystem.entry r.0 path ≡ secret json (lib.process.look proc).owner)
          × ((other : Bytes)
              → lib.filesystem.keep_in_root other ≢ lib.filesystem.keep_in_root path
              → lib.filesystem.entry r.0 other ≡ lib.filesystem.entry f other)
          × (r.1 ≡ lib.process.set_arguments (lib.process.look proc).executable path proc)
    unfolding dump_options
    dump_options-secret f proc json path e =
        let fs = lib.filesystem in
        let owner = (lib.process.look proc).owner in
        let (f₁, p₁, e₁) = >>=-eq-ok (fs.write (fs.keep_in_root path) json f) _ e in
        let (f₂, p₂, e₂) = >>=-eq-ok (fs.set_owner_id path owner f₁) _ e₁ in
        let (f₃, p₃, e₃) = >>=-eq-ok (fs.set_mode path owner_reads f₂) _ e₂ in
        let after : fs.entry f₃ path ≡ secret json owner =
          files.entry-set_mode path owner_reads f₂ f₃ p₃
          ∙ ap (λ (x : Entry). record x { mode = some owner_reads })
              (files.entry-set_owner_id path owner f₁ f₂ p₂)
          ∙ ap (λ t. record { content = t; owner = some owner; mode = some owner_reads })
              (files.content-write path json f f₁ p₁) in
        let others : (other : Bytes)
            → fs.keep_in_root other ≢ fs.keep_in_root path
            → fs.entry f₃ other ≡ fs.entry f other =
          λ other ne.
            files.other-set_mode path other owner_reads f₂ f₃ ne p₃
            ∙ files.other-set_owner_id path other owner f₁ f₂ ne p₂
            ∙ files.other-write path other json f f₁ ne p₁ in
        subst
          (λ (r : F × P).
            (fs.entry r.0 path ≡ secret json owner)
            × ((other : Bytes)
                → fs.keep_in_root other ≢ fs.keep_in_root path
                → fs.entry r.0 other ≡ fs.entry f other)
            × (r.1 ≡ lib.process.set_arguments (lib.process.look proc).executable path proc))
          (ok-injective e₃) (after, others, refl)
