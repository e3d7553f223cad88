-- ===== src/Text/Archive/RoundTrip.antt =====
-- What one archive writes, the other reads.
use deprecated_yandex_contes.Base.{
  ℕ, zero, suc, ◌+◌, ◌≤◌, ◌<◌, Bool, true, false, List, [], ◌∷◌, ◌++◌, map, Bytes, length,
  length-append, length-map, ok, ◌≡◌, ◌∙◌, inl, inr, refl, arith, append-nil, append_assoc,
}
use deprecated_yandex_contes.Text.Casts.{LexicalCast, Reads}
use deprecated_yandex_contes.Text.Escape.{escape, unescape}
use deprecated_yandex_contes.Text.Escape.RoundTrip.{unescape-escape}
use deprecated_yandex_contes.Broker.Types.{Casts, IsExact, Command, BrokerResult, max_id}
use deprecated_yandex_contes.Text.Archive.{
  InputArchive, load, load_items, load_vector, recv_command, recv_result,
}
use deprecated_yandex_contes.Text.Archive.Lines.{
  tail_of, line_of, is_nil, command_line, result_line,
}

module _ (rest : Bytes) (broken : Bool) where
  -- The archive in front of the words `ws` of a line that `rest` follows.
  abbrev before : List Bytes → InputArchive
  before ws = record {
    input = record { rest = line_of ws ++ rest; broken = broken };
    end = is_nil ws;
    last = false;
  }

  unescape_line :
      (w : Bytes) (ws : List Bytes)
      → unescape (before (w ∷ ws)).input false
        ≡ ok (record { text = w; end = is_nil ws; input = (before ws).input })
  unfolding line_of tail_of
  unescape_line w [] = rw append_assoc (unescape-escape w rest b'\n' broken (inr refl))
  unescape_line w (v ∷ ws) =
      rw append_assoc (unescape-escape w ((escape v ++ tail_of ws) ++ rest) b' ' broken (inl refl))

  load_line :
      {A : Type 0} (cast : LexicalCast A) (a : A) (ws : List Bytes)
      → Reads cast a
      → load cast (before (cast.to_string a ∷ ws)) ≡ ok (a, before ws)
  unfolding load
  load_line cast a ws exact = rw (unescape_line (cast.to_string a) ws, exact)

  load_items_line :
      {A : Type 0} (cast : LexicalCast A) (exact : (a : A) → Reads cast a) (as_ v : List A)
      (fuel : ℕ)
      → length as_ < fuel
      → load_items fuel cast v (before (map cast.to_string as_)) ≡ ok (v ++ as_, before [])
  unfolding load_items
  load_items_line cast exact as_ v zero h = absurd (omega arith)
  load_items_line cast exact [] v (suc fuel) h = rw append-nil
  load_items_line cast exact (a ∷ as_) v (suc fuel) h =
      rw (load_line cast a (map cast.to_string as_) (exact a))
        (load_items_line cast exact as_ (v ++ a ∷ []) fuel (omega arith) ∙ rw append_assoc)

  length-le-tail_of : (ws : List Bytes) → length ws ≤ length (tail_of ws)
  unfolding tail_of
  length-le-tail_of [] = omega arith
  length-le-tail_of (w ∷ ws) =
      omega (arith, length-append (escape w) (tail_of ws), length-le-tail_of ws)

  length-le-line_of : (ws : List Bytes) → length ws ≤ length (line_of ws ++ rest) + 1
  unfolding line_of
  length-le-line_of [] = omega arith
  length-le-line_of (w ∷ ws) = omega (
    arith,
    length-append (escape w ++ tail_of ws) rest,
    length-append (escape w) (tail_of ws),
    length-le-tail_of ws,
  )

  load_vector_line :
      {A : Type 0} (cast : LexicalCast A) (exact : (a : A) → Reads cast a) (as_ : List A)
      → load_vector cast (before (map cast.to_string as_))
        ≡ ok (as_, record (before []) { last = true })
  unfolding load_vector
  load_vector_line cast exact as_ =
      let ws = map cast.to_string as_ in
      let enough : length as_ < suc (suc (length (line_of ws ++ rest))) =
        omega (arith, length-le-line_of ws, length-map as_ cast.to_string) in
      rw (load_items_line cast exact as_ [] _ enough)

module _ (c : Casts) (exact : IsExact c) (rest : Bytes) (broken : Bool) where
  -- recvCommand reads a command back from its line and takes that line only, if the casts are exact
  -- and the identifier fits its type.
  pub recv_command_line :
      (command : Command)
      → command.id ≤ max_id
      → recv_command c (record { rest = command_line c command ++ rest; broken = broken })
        ≡ ok (command, record { rest = rest; broken = broken })
  unfolding recv_command command_line line_of
  recv_command_line command fits = rw (
    load_line rest broken c.type_cast command.type _ (exact.types command.type),
    load_line rest broken c.id_cast command.id _ (exact.ids command.id fits),
    load_vector_line rest broken c.text_cast exact.texts command.args,
  )

  -- recvResult reads a result back from its line and takes that line only, if the casts are exact.
  pub recv_result_line :
      (result : BrokerResult)
      → recv_result c (record { rest = result_line c result ++ rest; broken = broken })
        ≡ ok (result, record { rest = rest; broken = broken })
  unfolding recv_result result_line line_of
  recv_result_line result = rw (
    load_line rest broken c.status_cast result.status _ (exact.statuses result.status),
    load_line rest broken c.text_cast result.payload _ (exact.texts result.payload),
  )
