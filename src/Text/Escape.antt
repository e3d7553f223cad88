-- ===== src/Text/Escape.antt =====
-- `escape` and `unescape` of src/lib/BrokerTextInterface.cpp, lines 19 to 104.
pub mod Progress
pub mod RoundTrip
pub mod Unterminated
use deprecated_yandex_contes.Base.{
  ℕ, Bool, true, false, not, ◌&&◌, ◌||◌, [], ◌∷◌, ◌++◌, Option, none, some, Bytes, ◌==◌,
  if◌then◌else◌, Result, ok, err, ◌>>=◌, ◌>>◌, assert, throw_if, assertion, end_of_file,
  system_error,
}
use deprecated_yandex_contes.Text.Streams.{IStream}

-- What one round of `escape` writes.
unfoldable pub escape_byte : ℕ → Bytes
escape_byte c =
    if c == b' '
    then b'\\' ∷ b' ' ∷ []
    else if c == b'\n'
    then b'\\' ∷ b'n' ∷ []
    else if c == b'\\'
    then b'\\' ∷ b'\\' ∷ []
    else c ∷ []

unfoldable pub escape : Bytes → Bytes
unfolding escape_byte
escape [] = []
escape (c ∷ cs) = escape_byte c ++ escape cs

pub data State : Type 0 where
  init ordinal escaped : State

abbrev pub is_escaped : State → Bool
is_escaped escaped = true
is_escaped _ = false

abbrev pub is_init : State → Bool
is_init init = true
is_init _ = false

-- The local variables of `unescape` behind its loop. `stop` is the byte that ended it, `none` if
-- `input.get` failed.
pub record Scan : Type 0 where
  pub state : State
  pub buf : Bytes
  pub stop : Option ℕ
  pub rest : Bytes

-- The body of the loop, on the state and the buffer. A plain byte leaves the state as it is.
pub step : State → Bytes → ℕ → Result (State × Bytes)
step escaped buf c =
    if c == b'\\' || c == b' '
    then ok (ordinal, buf ++ c ∷ [])
    else if c == b'n'
    then ok (ordinal, buf ++ b'\n' ∷ [])
    else err assertion
step s buf c = if c == b'\\' then ok (escaped, buf) else ok (s, buf ++ c ∷ [])

-- The loop's test fails on this byte.
abbrev pub stops : State → ℕ → Bool
stops s c = c == b'\n' || (not (is_escaped s) && c == b' ')

pub scan : State → Bytes → Bytes → Result Scan
unfolding step
scan s buf [] = ok (record { state = s; buf = buf; stop = none; rest = [] })
scan s buf (c ∷ cs) = elim (stops s c) [
  | true ↦ ok (record { state = s; buf = buf; stop = some c; rest = cs })
  | false ↦ do (s', buf') ← step s buf c; scan s' buf' cs
]

-- What `unescape` returns: the string, the new value of `end`, and the stream.
pub record Token : Type 0 where
  pub text : Bytes
  pub end : Bool
  pub input : IStream

-- The checks behind the loop.
pub finish : Scan → Bool → Option ℕ → Result Token
finish sc broken none = do
  throw_if (is_init sc.state) end_of_file
  throw_if broken system_error
  assert (not (is_escaped sc.state))
  ok (record { text = sc.buf; end = true; input = record { rest = sc.rest; broken = broken } })
finish sc broken (some c) = do
  assert (not (is_escaped sc.state))
  assert (c == b'\n' || c == b' ')
  ok (record {
    text = sc.buf;
    end = c == b'\n';
    input = record { rest = sc.rest; broken = broken };
  })

unfoldable pub unescape : IStream → Bool → Result Token
unfolding scan finish
unescape input end = do
  throw_if end end_of_file
  sc ← scan init [] input.rest
  finish sc input.broken sc.stop
