-- ===== src/Broker/Types.antt =====
-- The types of include/yandex/contest/invoker/flowctl/game/Broker.hpp and of `Command` in
-- BrokerInterace.hpp, and the lexical casts that the protocol makes between them and strings.
use deprecated_yandex_contes.Base.{
  ◌≡◌, ℕ, ◌<◌, ◌≤◌, ◌-◌, ◌^◌, Bool, List, Bytes, ℤ, pos, pos_part, neg_part, [],
}
use deprecated_yandex_contes.Text.Casts.{LexicalCast, Reads}

-- Both limits in milliseconds. `std::chrono::milliseconds` counts in a signed 64-bit integer.
pub record ResourceLimits : Type 0 where
  pub user_time_limit : ℤ
  pub real_time_limit : ℤ

-- `std::chrono::hours(1)` for both.
abbrev pub default_limits : ResourceLimits
default_limits = record { user_time_limit = pos 3_600_000; real_time_limit = pos 3_600_000 }

-- `Broker::Result::Status`.
pub data ResultStatus : Type 0 where
  ok_status tokenizer_error eof_error time_limit_exceeded real_time_limit_exceeded : ResultStatus

-- `Broker::Result`.
pub record BrokerResult : Type 0 where
  pub status : ResultStatus
  pub payload : Bytes

-- `BrokerInterface::Command::Type`.
pub data CommandType : Type 0 where
  begin_type send_type end_type terminate_type : CommandType

-- `BrokerInterface::Command`.
pub record Command : Type 0 where
  pub type : CommandType
  pub id : ℕ
  pub args : List Bytes

-- `SolutionId` is a `std::size_t` of 64 bits.
abbrev pub max_id : ℕ
max_id = 2 ^ 64 - 1

-- A default-constructed command.
abbrev pub default_command : Command
default_command = record { type = terminate_type; id = max_id; args = [] }

-- The instances of `boost::lexical_cast` that the protocol uses, both ways.
pub record Casts : Type 0 where
  pub type_cast : LexicalCast CommandType
  pub id_cast : LexicalCast ℕ
  pub text_cast : LexicalCast Bytes
  pub status_cast : LexicalCast ResultStatus
  pub millis_cast : LexicalCast ℤ
  pub bool_cast : LexicalCast Bool

abbrev pub FitsInt64 : ℤ → Type 0
FitsInt64 z = (pos_part z < 2 ^ 63) × (neg_part z ≤ 2 ^ 63)

-- The documented behaviour of the casts: each reads what it prints, for the values of its type,
-- and a cast from string to string copies.
pub record IsExact (c : Casts) : Type 0 where
  pub types : (t : CommandType) → Reads c.type_cast t
  pub ids : (n : ℕ) → n ≤ max_id → Reads c.id_cast n
  pub texts : (s : Bytes) → Reads c.text_cast s
  pub copies : (s : Bytes) → c.text_cast.to_string s ≡ s
  pub statuses : (s : ResultStatus) → Reads c.status_cast s
  pub millis : (z : ℤ) → FitsInt64 z → Reads c.millis_cast z
  pub bools : (b : Bool) → Reads c.bool_cast b
