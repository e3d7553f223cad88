-- ===== src/Text/Archive/Lines.antt =====
-- The line that a command or a result is written as, and that the archive writes it.
use deprecated_yandex_contes.Base.{
  Bool, true, false, List, [], ◌∷◌, ◌++◌, map, Bytes, ok, ◌≡◌, refl, ap, ◌∙◌, arith, append_assoc,
}
use deprecated_yandex_contes.Text.Streams.{OStream, put}
use deprecated_yandex_contes.Text.Casts.{LexicalCast}
use deprecated_yandex_contes.Text.Escape.{escape}
use deprecated_yandex_contes.Broker.Types.{Casts, Command, BrokerResult}
use deprecated_yandex_contes.Text.Archive.{
  send_command, send_result, save_vector, OutputArchive, open_output, close, print, save,
  save_items,
}

-- The words of a line, behind the first one, and the newline.
unfoldable pub tail_of : List Bytes → Bytes
tail_of [] = b'\n' ∷ []
tail_of (w ∷ ws) = b' ' ∷ (escape w ++ tail_of ws)

-- The line from its first word on; nothing, if the newline has been read.
unfoldable pub line_of : List Bytes → Bytes
unfolding tail_of
line_of [] = []
line_of (w ∷ ws) = escape w ++ tail_of ws

abbrev pub is_nil : List Bytes → Bool
is_nil [] = true
is_nil (_ ∷ _) = false

pub put-put : (a b : Bytes) (out : OStream) → put b (put a out) ≡ put (a ++ b) out
put-put a b out = ground (arith, append_assoc out.sent a b)

-- The archive behind the words, or behind the first ones.
abbrev written : Bytes → OStream → OutputArchive
written bs out = record { output = put bs out; first = false; last = false }

save-first :
    {A : Type 0} (cast : LexicalCast A) (a : A) (out : OStream)
    → save cast a (open_output out) ≡ ok (written (escape (cast.to_string a)) out)
unfolding save print
save-first cast a out = refl

save-next :
    {A : Type 0} (cast : LexicalCast A) (a : A) (bs : Bytes) (out : OStream)
    → save cast a (written bs out) ≡ ok (written (bs ++ b' ' ∷ escape (cast.to_string a)) out)
unfolding save print
save-next cast a bs out =
    let first = put-put bs (b' ' ∷ []) out in
    let text = escape (cast.to_string a) in
    rw (first, put-put (bs ++ b' ' ∷ []) text out, append_assoc bs (b' ' ∷ []) text)

close-save_items :
    {A : Type 0} (cast : LexicalCast A) (v : List A) (bs : Bytes) (out : OStream)
    → (oa : OutputArchive) × (save_items cast v (written bs out) ≡ ok oa)
      × (close oa ≡ put (bs ++ tail_of (map cast.to_string v)) out)
unfolding save_items tail_of
close-save_items cast [] bs out = (written bs out, refl, put-put bs (b'\n' ∷ []) out)
close-save_items cast (a ∷ v) bs out =
    let here = b' ' ∷ escape (cast.to_string a) in
    let (oa, e, f) = close-save_items cast v (bs ++ here) out in
    (
      oa,
      rw (save-next cast a bs out) e,
      f ∙ ap (λ t. put t out) (append_assoc bs here (tail_of (map cast.to_string v))),
    )

unfoldable pub command_line : Casts → Command → Bytes
command_line c command = line_of (
    c.type_cast.to_string command.type
    ∷ c.id_cast.to_string command.id
    ∷ map c.text_cast.to_string command.args)

unfoldable pub result_line : Casts → BrokerResult → Bytes
result_line c result =
    line_of (c.status_cast.to_string result.status ∷ c.text_cast.to_string result.payload ∷ [])

-- Sending a command puts its line on the stream: the escaped words with a blank between two of
-- them, and a newline.
pub send_command_lem :
    (c : Casts) (command : Command) (out : OStream)
    → send_command c command out ≡ ok (put (command_line c command) out)
unfolding send_command command_line line_of save_vector
send_command_lem c command out =
    let type = escape (c.type_cast.to_string command.type) in
    let id = b' ' ∷ escape (c.id_cast.to_string command.id) in
    let (oa, e, f) = close-save_items c.text_cast command.args (type ++ id) out in
    rw (
      save-first c.type_cast command.type out,
      save-next c.id_cast command.id type out,
      e,
      f,
      append_assoc,
    )

pub send_result_lem :
    (c : Casts) (result : BrokerResult) (out : OStream)
    → send_result c result out ≡ ok (put (result_line c result) out)
unfolding send_result result_line line_of tail_of
send_result_lem c result out =
    let status = escape (c.status_cast.to_string result.status) in
    let payload = b' ' ∷ escape (c.text_cast.to_string result.payload) in
    rw (
      save-first c.status_cast result.status out,
      save-next c.text_cast result.payload status out,
      put-put (status ++ payload) (b'\n' ∷ []) out,
      append_assoc,
    )
