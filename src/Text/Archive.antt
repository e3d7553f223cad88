-- ===== src/Text/Archive.antt =====
-- `OutputArchive`, `InputArchive` and `BrokerTextInterface` of src/lib/BrokerTextInterface.cpp,
-- lines 117 to 295, with the `serialize` members of `Command` and `Broker::Result`.
pub mod Lines
pub mod Progress
pub mod RoundTrip
use deprecated_yandex_contes.Base.{
  ℕ, zero, suc, Bool, true, false, not, List, [], ◌∷◌, ◌++◌, Bytes, length, if◌then◌else◌, Result,
  ok, err, ◌>>=◌, ◌>>◌, assert, throw_if, or_throw, end_of_file, bad_lexical_cast, pending,
}
use deprecated_yandex_contes.Text.Streams.{IStream, OStream, put}
use deprecated_yandex_contes.Text.Casts.{LexicalCast}
use deprecated_yandex_contes.Text.Escape.{escape, unescape}
use deprecated_yandex_contes.Broker.Types.{Casts, Command, BrokerResult}

pub record OutputArchive : Type 0 where
  pub output : OStream
  pub first : Bool
  pub last : Bool

abbrev pub open_output : OStream → OutputArchive
open_output out = record { output = out; first = true; last = false }

-- `~OutputArchive`: `output_ << std::endl`.
abbrev pub close : OutputArchive → OStream
close oa = put (b'\n' ∷ []) oa.output

-- `print`, on the string that the cast gives.
unfoldable pub print : Bytes → OutputArchive → OutputArchive
print text oa =
    let spaced = if oa.first then oa.output else put (b' ' ∷ []) oa.output in
    record oa { output = put (escape text) spaced; first = false }

-- `operator<<` at a streamable type.
unfoldable pub save : {A : Type 0} → LexicalCast A → A → OutputArchive → Result OutputArchive
save cast a oa = do assert (not oa.last); ok (print (cast.to_string a) oa)

-- The loop of `save` at a vector.
unfoldable pub save_items :
    {A : Type 0} → LexicalCast A → List A → OutputArchive → Result OutputArchive
save_items cast [] oa = ok oa
save_items cast (a ∷ as_) oa = do oa' ← save cast a oa; save_items cast as_ oa'

-- `operator<<` at a vector.
unfoldable pub save_vector :
    {A : Type 0} → LexicalCast A → List A → OutputArchive → Result OutputArchive
save_vector cast v oa = do
  assert (not oa.last)
  oa' ← save_items cast v oa
  ok (record oa' { last = true })

-- `send(const Command &)`, by `Command::serialize`.
unfoldable pub send_command : Casts → Command → OStream → Result OStream
send_command c command out = do
  oa₁ ← save c.type_cast command.type (open_output out)
  oa₂ ← save c.id_cast command.id oa₁
  oa₃ ← save_vector c.text_cast command.args oa₂
  ok (close oa₃)

-- `send(const Result &)`, by `Broker::Result::serialize`.
unfoldable pub send_result : Casts → BrokerResult → OStream → Result OStream
send_result c result out = do
  oa₁ ← save c.status_cast result.status (open_output out)
  oa₂ ← save c.text_cast result.payload oa₁
  ok (close oa₂)

pub record InputArchive : Type 0 where
  pub input : IStream
  pub end : Bool
  pub last : Bool

abbrev pub open_input : IStream → InputArchive
open_input input = record { input = input; end = false; last = false }

-- `operator>>` at a streamable type.
unfoldable pub load : {A : Type 0} → LexicalCast A → InputArchive → Result (A × InputArchive)
load cast ia = do
  throw_if ia.end end_of_file
  assert (not ia.last)
  token ← unescape ia.input ia.end
  a ← or_throw (cast.from_string token.text) bad_lexical_cast
  ok (a, record ia { input = token.input; end = token.end })

-- The loop `while (!end_)` of `load` at a vector, on fuel.
unfoldable pub load_items :
    {A : Type 0} → ℕ → LexicalCast A → List A → InputArchive → Result (List A × InputArchive)
load_items zero cast v ia = err pending
load_items (suc fuel) cast v ia = elim ia.end [
  | true ↦ ok (v, ia)
  | false ↦ do (a, ia') ← load cast ia; load_items fuel cast (v ++ a ∷ []) ia'
]

-- `operator>>` at a vector. Each round but the last takes a byte, so the fuel is enough.
unfoldable pub load_vector :
    {A : Type 0} → LexicalCast A → InputArchive → Result (List A × InputArchive)
load_vector cast ia = do
  assert (not ia.last)
  (v, ia') ← load_items (suc (suc (length ia.input.rest))) cast [] ia
  ok (v, record ia' { last = true })

unfoldable pub recv_command : Casts → IStream → Result (Command × IStream)
recv_command c input = do
  (type, ia₁) ← load c.type_cast (open_input input)
  (id, ia₂) ← load c.id_cast ia₁
  (args, ia₃) ← load_vector c.text_cast ia₂
  ok (record { type = type; id = id; args = args }, ia₃.input)

unfoldable pub recv_result : Casts → IStream → Result (BrokerResult × IStream)
recv_result c input = do
  (status, ia₁) ← load c.status_cast (open_input input)
  (payload, ia₂) ← load c.text_cast ia₁
  ok (record { status = status; payload = payload }, ia₂.input)
