-- ===== src/Tests/Text.antt =====
-- The text protocol at concrete inputs.
use deprecated_yandex_contes.Base.{
  true, false, [], ◌∷◌, ◌++◌, Bytes, codes, ok, err, end_of_file, ◌≡◌, refl, inr, arith,
}
use deprecated_yandex_contes.Text.Escape.{escape, escape_byte, unescape}
use deprecated_yandex_contes.Text.Escape.RoundTrip.{unescape-escape}
use deprecated_yandex_contes.Text.Escape.Unterminated.{unescape_unterminated}
use deprecated_yandex_contes.Text.Archive.{recv_command}
use deprecated_yandex_contes.Text.Archive.Lines.{command_line, line_of, tail_of}
use deprecated_yandex_contes.Text.Archive.RoundTrip.{recv_command_line}
use deprecated_yandex_contes.Broker.Types.{Command, send_type, BrokerResult, ok_status}
use deprecated_yandex_contes.Tests.Samples.{casts, casts-IsExact}

abbrev two_lines : Bytes
two_lines = codes "go a2" ++ b'\n' ∷ b'%' ∷ []

abbrev hello : Command
hello = record { type = send_type; id = 2; args = two_lines ∷ [] ∷ [] }

abbrev answer : BrokerResult
answer = record { status = ok_status; payload = two_lines }

unescape-escape_example :
    unescape (record { rest = escape two_lines ++ b'\n' ∷ codes "x y"; broken = false }) false
    ≡ ok (record {
      text = two_lines;
      end = true;
      input = record { rest = codes "x y"; broken = false };
    })
unescape-escape_example = unescape-escape two_lines (codes "x y") b'\n' false (inr refl)

unescape_unterminated_example :
    unescape (record { rest = escape (codes "abc"); broken = false }) false ≡ err end_of_file
unescape_unterminated_example = unescape_unterminated (codes "abc")

recv_command_line_example :
    recv_command casts (record { rest = command_line casts hello ++ codes "t"; broken = false })
    ≡ ok (hello, record { rest = codes "t"; broken = false })
recv_command_line_example =
    recv_command_line casts casts-IsExact (codes "t") false hello (omega arith)

command_line_test : command_line casts hello ≡ codes "s 11 go\\ a2\\n% " ++ b'\n' ∷ []
unfolding command_line line_of tail_of escape escape_byte
command_line_test = refl

recv_hello :
    recv_command casts (record { rest = command_line casts hello ++ []; broken = false })
    ≡ ok (hello, record { rest = []; broken = false })
recv_hello = recv_command_line casts casts-IsExact [] false hello (omega arith)
