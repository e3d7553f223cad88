-- ===== src/Text/Casts.antt =====
-- `boost::lexical_cast` between strings and a type of the protocol: not code of this repository,
-- so a parameter of what uses it.
use deprecated_yandex_contes.Base.{◌≡◌, Option, some, Bytes}

pub record LexicalCast (A : Type 0) : Type 0 where
  pub to_string : A → Bytes
  pub from_string : Bytes → Option A

abbrev pub Reads : {A : Type 0} → LexicalCast A → A → Type 0
Reads c a = c.from_string (c.to_string a) ≡ some a
