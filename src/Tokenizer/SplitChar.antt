-- ===== src/Tokenizer/SplitChar.antt =====
-- src/tokenizers/split_char.c: a token ends with the first separator character.
pub mod Contract
pub mod First
pub mod Lines
use mathlib.Core.Option
use deprecated_yandex_contes.Base.{
  ℕ, suc, ◌+◌, Bool, [], ◌∷◌, Option, none, some, Bytes, length, ℤ, pos, Result, ok, err, ◌>>=◌,
  ◌>>◌, assertion, ◌==◌, if◌then◌else◌,
}
use deprecated_yandex_contes.Tokenizer.{TokenizerLibrary}

pub record SplitChar : Type 0 where
  pub sep : ℕ

-- `memchr`: the place of the first such byte.
unfoldable pub memchr : ℕ → Bytes → Option ℕ
memchr c [] = none
memchr c (b ∷ bs) = if b == c then some 0 else Option.map suc (memchr c bs)

-- `tokenizer_new`. `memory`: `malloc` succeeds.
unfoldable pub new : Bool → Bytes → Result (Option SplitChar)
new memory [] = err assertion
new memory (c ∷ []) = ok (if memory then some (record { sep = c }) else none)
new memory (_ ∷ _ ∷ _) = err assertion

-- `tokenizer_parse`.
unfoldable pub parse : SplitChar → Bytes → Result (SplitChar × ℤ × ℕ)
unfolding memchr
parse tok chunk = elim (memchr tok.sep chunk) [
  | some i ↦ ok (tok, pos 1, i + 1)
  | none ↦ ok (tok, pos 0, length chunk)
]

-- The library exports no `tokenizer_what`.
abbrev pub split_char : Bool → TokenizerLibrary SplitChar
split_char memory = record { new = new memory; parse = parse; what = none }
