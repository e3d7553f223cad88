-- ===== src/Tokenizer/Laws.antt =====
-- What the broker relies on of a tokenizer: the contract that SharedTokenizer.hpp and Tokenizer.hpp
-- document, as an interface.
use deprecated_yandex_contes.Base.{ℕ, ◌+◌, ◌≤◌, ◌≡◌, ◌++◌, Bytes, length, ok, ◌>>=◌}
use deprecated_yandex_contes.Tokenizer.{
  continue, accepted, TokenizerResult, TokenizerLibrary, tokenize,
}

-- The result of a call behind `k` bytes that an earlier call took.
abbrev pub shift : {T : Type 0} → ℕ → T × TokenizerResult → T × TokenizerResult
shift k (t, r) = (t, record r { accepted = k + r.accepted })

-- `Ready t`: the tokenizer may be called, that is, it is new or its last answer was `CONTINUE`.
pub record IsTokenizer {T : Type 0} (lib : TokenizerLibrary T) (Ready : T → Type 0) : Type 0 where
  pub runs :
      (t : T) (chunk : Bytes) → Ready t → (r : T × TokenizerResult) × (tokenize lib t chunk ≡ ok r)
  pub bounded :
      (t : T) (chunk : Bytes) {r : T × TokenizerResult}
      → Ready t
      → tokenize lib t chunk ≡ ok r
      → r.1.status ≡ accepted
      → r.1.accepted ≤ length chunk
  pub stays_ready :
      (t : T) (chunk : Bytes) {r : T × TokenizerResult}
      → Ready t
      → tokenize lib t chunk ≡ ok r
      → r.1.status ≡ continue
      → Ready r.0
  -- The answer does not depend on how the output is cut into chunks.
  pub resumes :
      (t : T) (xs ys : Bytes) {r : T × TokenizerResult}
      → Ready t
      → tokenize lib t xs ≡ ok r
      → r.1.status ≡ continue
      → tokenize lib t (xs ++ ys)
        ≡ tokenize lib r.0 ys >>= λ (q : T × TokenizerResult). ok (shift (length xs) q)
