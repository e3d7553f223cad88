-- ===== src/Tokenizer/SplitChar/Contract.antt =====
-- The split_char tokenizer keeps the contract of tokenizers, and finds the first separator.
use mathlib.Core.Option
use deprecated_yandex_contes.Base.{
  ℕ, ◌+◌, ◌<◌, Bool, [], ◌∷◌, none, some, Option-cases, Bytes, length, length-append, ok, ◌>>=◌,
  ◌++◌, ◌≡◌, arith, ◌≤◌, inl, inr,
}
use deprecated_yandex_contes.Tokenizer.{continue, accepted, TokenizerResult, tokenize}
use deprecated_yandex_contes.Tokenizer.Laws.{IsTokenizer, shift}
use deprecated_yandex_contes.Tokenizer.SplitChar.{SplitChar, memchr, parse, split_char}

memchr-lt : (c : ℕ) (bs : Bytes) {i : ℕ} → memchr c bs ≡ some i → i < length bs
unfolding memchr
memchr-lt c [] e = cc
memchr-lt c (b ∷ bs) e = elim (Option-cases (memchr c bs)) [
  | inl n ↦ ground arith
  | inr (j, s) ↦ ground (arith, memchr-lt c bs s)
]

memchr-append :
    (c : ℕ) (xs ys : Bytes)
    → memchr c xs ≡ none
    → memchr c (xs ++ ys) ≡ Option.map (λ i. length xs + i) (memchr c ys)
unfolding memchr
memchr-append c [] ys e = elim (Option-cases (memchr c ys)) [
  | inl n ↦ ground arith
  | inr (j, s) ↦ ground arith
]
memchr-append c (x ∷ xs) ys e = elim (Option-cases (memchr c ys)) [
  | inl n ↦ ground (arith, memchr-append c xs ys)
  | inr (j, s) ↦ ground (arith, memchr-append c xs ys)
]

module _ (memory : Bool) where
  runs :
      (t : SplitChar) (chunk : Bytes)
      → Unit {0}
      → (r : SplitChar × TokenizerResult) × (tokenize (split_char memory) t chunk ≡ ok r)
  unfolding tokenize parse
  runs t chunk _ = elim (Option-cases (memchr t.sep chunk)) [
    | inl n ↦ ((t, record { status = continue; accepted = length chunk }), rw (n, parse))
    | inr (i, s) ↦ ((t, record { status = accepted; accepted = i + 1 }), rw (s, parse))
  ]

  bounded :
      (t : SplitChar) (chunk : Bytes) {r : SplitChar × TokenizerResult}
      → Unit {0}
      → tokenize (split_char memory) t chunk ≡ ok r
      → r.1.status ≡ accepted
      → r.1.accepted ≤ length chunk
  unfolding tokenize parse
  bounded t chunk _ e a = elim (Option-cases (memchr t.sep chunk)) [
    | inl n ↦ ground arith
    | inr (i, s) ↦ ground (arith, memchr-lt t.sep chunk s)
  ]

  resumes :
      (t : SplitChar) (xs ys : Bytes) {r : SplitChar × TokenizerResult}
      → Unit {0}
      → tokenize (split_char memory) t xs ≡ ok r
      → r.1.status ≡ continue
      → tokenize (split_char memory) t (xs ++ ys)
        ≡ tokenize (split_char memory) r.0 ys >>= λ (q : SplitChar × TokenizerResult).
            ok (shift (length xs) q)
  unfolding tokenize parse
  resumes t xs ys _ e a = elim (Option-cases (memchr t.sep xs)) [
    | inl n ↦ elim (Option-cases (memchr t.sep ys)) [
      | inl m ↦ ground (arith, memchr-append t.sep xs ys n, length-append xs ys)
      | inr (j, s) ↦ ground (arith, memchr-append t.sep xs ys n)
    ]
    | inr (i, s) ↦ ground arith
  ]

  -- The tokenizer of split_char.c keeps the contract of a tokenizer in every state.
  pub split_char-IsTokenizer : IsTokenizer (split_char memory) (λ _. Unit {0})
  split_char-IsTokenizer = record {
    runs = runs;
    bounded = bounded;
    stays_ready = λ _ _ _ _ _. tt;
    resumes = resumes;
  }
