-- ===== src/Configurator/Once.antt =====
-- Later calls of `configure` of src/lib/Configurator.cpp.
use deprecated_yandex_contes.Base.{
  Bytes, true, false, ok, Bool-cases, ok-injective, inl, inr, ◌≡◌, sym, ap, ◌∙◌,
}
use deprecated_yandex_contes.Configurator.{Configurator, Libraries, set_up, configure}
use deprecated_yandex_contes.Configurator.Steps.{Steps, set_up-Steps, configure-fresh}

module _ {I Pi P G F : Type 0} (lib : Libraries I Pi P G F) where
  configure-done :
      (bc kc : Bytes) (c : Configurator P G F) → c.configured ≡ true → configure lib bc kc c ≡ ok c
  unfolding configure
  configure-done bc kc c done = ap (λ b. elim b [ true ↦ ok c | false ↦ set_up lib bc kc c ]) done

  set_up-configured :
      (bc kc : Bytes) (c c' : Configurator P G F) → Steps lib bc kc c c' → c'.configured ≡ true
  set_up-configured bc kc c c' s = ap (λ (x : Configurator P G F). x.configured) s.done

  -- Behind a configure that returns, every later one returns at once and changes nothing.
  pub configure-once :
      (bc kc other_bc other_kc : Bytes) (c c' : Configurator P G F)
      → configure lib bc kc c ≡ ok c'
      → configure lib other_bc other_kc c' ≡ ok c'
  configure-once bc kc other_bc other_kc c c' e =
      configure-done other_bc other_kc c' (elim (Bool-cases c.configured) [
        | inl done ↦
            ap (λ (x : Configurator P G F). x.configured)
              (sym (ok-injective (sym (configure-done bc kc c done) ∙ e)))
            ∙ done
        | inr fresh ↦
            set_up-configured bc kc c c'
              (set_up-Steps lib bc kc c (sym (configure-fresh lib bc kc c fresh) ∙ e))
      ])
