-- ===== src/Tokenizer.antt =====
-- include/yandex/contest/invoker/flowctl/game/Tokenizer.hpp and SharedTokenizer.hpp,
-- src/lib/Tokenizer.cpp and SharedTokenizer.cpp: the broker's view of a tokenizer, which is a
-- plug-in with four C functions. Two of them are in src/tokenizers: SplitChar and Split.
pub mod SplitChar
pub mod Split
pub mod Laws
use deprecated_yandex_contes.Base.{
  ℕ, zero, suc, Option, none, some, Bytes, ℤ, pos, negsuc, Result, ok, err, ◌>>=◌, or_throw,
  assertion, bad_alloc,
}

-- `Tokenizer::Status`.
pub data Status : Type 0 where
  fail continue accepted : Status

-- `Tokenizer::Result`. The second field is the number of bytes accepted, if any were.
pub record TokenizerResult : Type 0 where
  pub status : Status
  pub accepted : ℕ

-- The functions of a shared library, on the states `T` of its tokenizers. `new` gives `none` for a
-- null pointer; `parse` gives the integer that it returns and what it leaves in `*size`; `what`
-- may be missing from the library, and may return a null pointer. A failed `assert` of the library
-- aborts the process, so `new` and `parse` can fail.
pub record TokenizerLibrary (T : Type 0) : Type 0 where
  pub new : Bytes → Result (Option T)
  pub parse : T → Bytes → Result (T × ℤ × ℕ)
  pub what : Option (T → Option Bytes)

-- The symbols of a shared library, as the loader finds them.
pub record DynamicLibrary (T : Type 0) : Type 0 where
  pub tokenizer_new : Option (Bytes → Result (Option T))
  pub tokenizer_delete : Option (T → Result (Unit {0}))
  pub tokenizer_parse : Option (T → Bytes → Result (T × ℤ × ℕ))
  pub tokenizer_what : Option (T → Option Bytes)

-- The constructor of `SharedTokenizerFactory`. The factory is the functions that it calls later.
unfoldable pub new_factory : {T : Type 0} → DynamicLibrary T → Result (TokenizerLibrary T)
new_factory dl = do
  new ← or_throw dl.tokenizer_new assertion
  delete ← or_throw dl.tokenizer_delete assertion
  parse ← or_throw dl.tokenizer_parse assertion
  ok (record { new = new; parse = parse; what = dl.tokenizer_what })

-- The status for the integer that `parse` returned.
unfoldable pub status_of : ℤ → Status
status_of (negsuc _) = fail
status_of (pos zero) = continue
status_of (pos (suc _)) = accepted

module _ {T : Type 0} (lib : TokenizerLibrary T) where
  -- `SharedTokenizerFactory::instance`: the constructor of `Instance` throws at a null pointer.
  unfoldable pub instance_of : Bytes → Result T
  instance_of argument = do
    made ← lib.new argument
    elim made [ some t ↦ ok t | none ↦ err bad_alloc ]

  -- `Instance::operator()`, on data that is not a null pointer.
  unfoldable pub tokenize : T → Bytes → Result (T × TokenizerResult)
  unfolding status_of
  tokenize t chunk = do
    (t', code, size) ← lib.parse t chunk
    ok (t', record { status = status_of code; accepted = size })

  -- `Instance::what`: with no such function, the null pointer of `Tokenizer::what`.
  unfoldable pub explain : T → Option Bytes
  explain t = elim lib.what [ some what ↦ what t | none ↦ none ]
