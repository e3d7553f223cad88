-- ===== src/Tokenizer/Split/Missed.antt =====
-- src/tokenizers/split.c: a separator that the loop misses. After a mismatch it starts again at the
-- separator's first byte, and forgets that the bytes seen may hold more of it.
use deprecated_yandex_contes.Base.{ℕ, true, [], ◌∷◌, ok, ◌≡◌, ◌≢◌, arith}
use deprecated_yandex_contes.Tokenizer.{continue, instance_of, tokenize, status_of}
use deprecated_yandex_contes.Tokenizer.Split.{
  Split, new, c_string, byte_at, step, scan, parse, split,
}

module _ (a b : ℕ) (ne : a ≢ b) where
  -- The tokenizer for the separator a a b, behind `over` bytes of it.
  abbrev at_over : ℕ → Split
  at_over n = record { sep = a ∷ a ∷ b ∷ []; sep_size = 3; over = n }

  step₀ : step (at_over 0) a ≡ at_over 1
  unfolding step byte_at
  step₀ = ground arith

  step₁ : step (at_over 1) a ≡ at_over 2
  unfolding step byte_at
  step₁ = ground arith

  step₂ : step (at_over 2) a ≡ at_over 1
  unfolding step byte_at
  step₂ = ground arith

  step₃ : step (at_over 1) b ≡ at_over 0
  unfolding step byte_at
  step₃ = ground arith

  -- For two different bytes a and b, neither of them zero, the tokenizer that split.c makes for the
  -- separator a a b does not accept the output a a a b, although that ends with the separator.
  pub split_missed :
      a ≢ 0
      → b ≢ 0
      → (t : Split) × (instance_of (split true true) (a ∷ a ∷ b ∷ []) ≡ ok t)
        × (tokenize (split true true) t (a ∷ a ∷ a ∷ b ∷ [])
            ≡ ok (t, record { status = continue; accepted = 4 }))
  unfolding instance_of new c_string tokenize parse scan status_of
  split_missed ha hb = (at_over 0, ground arith, rw (step₀, step₁, step₂, step₃))
