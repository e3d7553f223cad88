-- ===== src/Tokenizer/Split.antt =====
-- src/tokenizers/split.c: a token ends with the separator string.
pub mod Contract
pub mod Found
pub mod Matching
pub mod Missed
use deprecated_yandex_contes.Base.{
  ℕ, ◌+◌, Bool, [], ◌∷◌, Option, none, some, get_elem?, Bytes, length, ℤ, pos, Result, ok, ◌>>=◌,
  ◌>>◌, assert, ltb, ◌==◌, if◌then◌else◌, not,
}
use deprecated_yandex_contes.Tokenizer.{TokenizerLibrary}

-- `sep` holds the bytes of the C string without its terminating zero.
pub record Split : Type 0 where
  pub sep : Bytes
  pub sep_size : ℕ
  pub over : ℕ

-- `tok->sep[i]` for `i` up to the size: behind the bytes stands the zero.
unfoldable pub byte_at : Bytes → ℕ → ℕ
byte_at sep i = elim (get_elem? sep i) [ some b ↦ b | none ↦ 0 ]

-- The C string at the start of a buffer that a zero follows: the bytes before the first zero.
unfoldable pub c_string : Bytes → Bytes
c_string [] = []
c_string (b ∷ bs) = if b == 0 then [] else b ∷ c_string bs

-- `tokenizer_new`. `tok_memory` and `sep_memory`: `calloc` and `malloc` succeed.
unfoldable pub new : Bool → Bool → Bytes → Result (Option Split)
unfolding c_string
new tok_memory sep_memory line = do
  assert (not (length line == 0))
  let sep = c_string line
  ok (
      if not tok_memory
      then none
      else if not sep_memory
      then none
      else some (record { sep = sep; sep_size = length sep; over = 0 }))

-- The matching part of the loop's body.
unfoldable pub step : Split → ℕ → Split
unfolding byte_at
step tok c =
    if c == byte_at tok.sep tok.over
    then record tok { over = tok.over + 1 }
    else if c == byte_at tok.sep 0
    then record tok { over = 1 }
    else record tok { over = 0 }

-- The loop, from index `i`; `size` is the old `*size`.
unfoldable pub scan : ℕ → Split → ℕ → Bytes → Result (Split × ℤ × ℕ)
unfolding step
scan size tok i [] = ok (tok, pos 0, size)
scan size tok i (c ∷ cs) = do
  assert (ltb tok.over tok.sep_size)
  let tok' = step tok c
  let rest = scan size tok' (i + 1) cs
  if tok'.over == tok'.sep_size then ok (tok', pos 1, i + 1) else rest

-- `tokenizer_parse`.
unfoldable pub parse : Split → Bytes → Result (Split × ℤ × ℕ)
unfolding scan
parse tok chunk = do assert (not (tok.sep_size == 0)); scan (length chunk) tok 0 chunk

-- The library exports no `tokenizer_what`.
abbrev pub split : Bool → Bool → TokenizerLibrary Split
split tok_memory sep_memory = record { new = new tok_memory sep_memory; parse = parse; what = none }
