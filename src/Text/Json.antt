-- ===== src/Text/Json.antt =====
-- The JSON files of the options: the archives of bunsan::config and the parser of
-- boost::property_tree are code of other libraries, so parameters of what uses them.
use deprecated_yandex_contes.Base.{◌≡◌, Option, some, Bytes}

-- A file for a value, and the value of a file, if it has one.
pub record Json (A : Type 0) : Type 0 where
  pub write : A → Bytes
  pub read : Bytes → Option A

-- What is written is read again.
pub record IsJson {A : Type 0} (j : Json A) : Type 0 where
  pub reads : (a : A) → j.read (j.write a) ≡ some a
