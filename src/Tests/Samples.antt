-- ===== src/Tests/Samples.antt =====
-- Lexical casts that a test can evaluate: numbers in unary, the words of an enumeration as one byte.
use deprecated_yandex_contes.Base.{
  ℕ, zero, suc, Bool, true, false, [], ◌∷◌, Option, none, some, Bytes, length, ℤ, pos, negsuc, ◌==◌,
  if◌then◌else◌, ◌≡◌, refl, ap,
}
use deprecated_yandex_contes.Text.Casts.{Reads}
use deprecated_yandex_contes.Broker.Types.{
  Casts, IsExact, CommandType, begin_type, send_type, end_type, terminate_type, ResultStatus,
  ok_status, tokenizer_error, eof_error, time_limit_exceeded, real_time_limit_exceeded,
}

abbrev pub unary : ℕ → Bytes
unary zero = []
unary (suc n) = b'1' ∷ unary n

length-unary : (n : ℕ) → length (unary n) ≡ n
length-unary zero = refl
length-unary (suc n) = ap suc (length-unary n)

abbrev type_word : CommandType → Bytes
type_word begin_type = b'b' ∷ []
type_word send_type = b's' ∷ []
type_word end_type = b'e' ∷ []
type_word terminate_type = b't' ∷ []

abbrev head : Bytes → ℕ
head [] = 0
head (c ∷ cs) = c

abbrev tail : Bytes → Bytes
tail [] = []
tail (c ∷ cs) = cs

abbrev read_type : Bytes → Option CommandType
read_type s =
    if head s == b'b'
    then some begin_type
    else if head s == b's'
    then some send_type
    else if head s == b'e'
    then some end_type
    else if head s == b't'
    then some terminate_type
    else none

abbrev status_word : ResultStatus → Bytes
status_word ok_status = b'o' ∷ []
status_word tokenizer_error = b't' ∷ []
status_word eof_error = b'e' ∷ []
status_word time_limit_exceeded = b'l' ∷ []
status_word real_time_limit_exceeded = b'r' ∷ []

abbrev read_status : Bytes → Option ResultStatus
read_status s =
    if head s == b'o'
    then some ok_status
    else if head s == b't'
    then some tokenizer_error
    else if head s == b'e'
    then some eof_error
    else if head s == b'l'
    then some time_limit_exceeded
    else if head s == b'r'
    then some real_time_limit_exceeded
    else none

abbrev millis_word : ℤ → Bytes
millis_word (pos n) = b'+' ∷ unary n
millis_word (negsuc n) = b'-' ∷ unary n

abbrev read_millis : Bytes → Option ℤ
read_millis s =
    if head s == b'+'
    then some (pos (length (tail s)))
    else if head s == b'-'
    then some (negsuc (length (tail s)))
    else none

abbrev bool_word : Bool → Bytes
bool_word true = b'1' ∷ []
bool_word false = b'0' ∷ []

abbrev read_bool : Bytes → Option Bool
read_bool s = if head s == b'1' then some true else if head s == b'0' then some false else none

abbrev pub casts : Casts
casts = record {
  type_cast = record { to_string = type_word; from_string = read_type };
  id_cast = record { to_string = unary; from_string = λ s. some (length s) };
  text_cast = record { to_string = λ s. s; from_string = some };
  status_cast = record { to_string = status_word; from_string = read_status };
  millis_cast = record { to_string = millis_word; from_string = read_millis };
  bool_cast = record { to_string = bool_word; from_string = read_bool };
}

types-exact : (t : CommandType) → Reads casts.type_cast t
types-exact begin_type = refl
types-exact send_type = refl
types-exact end_type = refl
types-exact terminate_type = refl

statuses-exact : (s : ResultStatus) → Reads casts.status_cast s
statuses-exact ok_status = refl
statuses-exact tokenizer_error = refl
statuses-exact eof_error = refl
statuses-exact time_limit_exceeded = refl
statuses-exact real_time_limit_exceeded = refl

millis-exact : (z : ℤ) → Reads casts.millis_cast z
millis-exact (pos n) = ap (λ m. some (pos m)) (length-unary n)
millis-exact (negsuc n) = ap (λ m. some (negsuc m)) (length-unary n)

bools-exact : (b : Bool) → Reads casts.bool_cast b
bools-exact true = refl
bools-exact false = refl

pub casts-IsExact : IsExact casts
casts-IsExact = record {
  types = types-exact;
  ids = λ n _. ap some (length-unary n);
  texts = λ s. refl;
  copies = λ s. refl;
  statuses = statuses-exact;
  millis = λ z _. millis-exact z;
  bools = bools-exact;
}
