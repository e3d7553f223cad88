-- ===== src/Text/Escape/Unterminated.antt =====
-- What becomes of a last token with no blank or newline behind it.
use deprecated_yandex_contes.Base.{
  ℕ, Bool, true, false, not, ◌&&◌, ◌||◌, [], ◌∷◌, Bytes, ◌==◌, if◌then◌else◌, ok, err, end_of_file,
  ◌≡◌, refl, ◌∙◌, arith, append-nil, sym, ap,
}
use deprecated_yandex_contes.Text.Escape.{escape, init, ordinal, is_init, scan, finish, unescape}
use deprecated_yandex_contes.Text.Escape.RoundTrip.{
  after, after_all, scan-escape, after_all-is_escaped,
}

-- Bytes that `escape` leaves as they are.
abbrev pub is_plain : ℕ → Bool
is_plain c = not (c == b' ' || c == b'\n' || c == b'\\')

abbrev pub all_plain : Bytes → Bool
all_plain [] = true
all_plain (c ∷ cs) = is_plain c && all_plain cs

after_all_ordinal : (cs : Bytes) → after_all ordinal cs ≡ ordinal
unfolding after_all after
after_all_ordinal [] = refl
after_all_ordinal (c ∷ cs) = ground (arith, after_all_ordinal cs)

is_init-after_all : (cs : Bytes) → is_init (after_all init cs) ≡ all_plain cs
unfolding after_all after
is_init-after_all [] = refl
is_init-after_all (c ∷ cs) = ground (arith, is_init-after_all cs, after_all_ordinal cs)

-- At the end of the input an escaped text is read back only if it holds an escape sequence; one of
-- plain bytes alone counts as no token and ends in EndOfFileError.
pub unescape_unterminated :
    (text : Bytes)
    → unescape (record { rest = escape text; broken = false }) false ≡ (
        if all_plain text
        then err end_of_file
        else ok (record { text = text; end = true; input = record { rest = []; broken = false } }))
unfolding unescape finish
unescape_unterminated text =
    let whole : scan init [] (escape text) ≡ scan (after_all init text) text [] =
      ap (scan init []) (sym (append-nil (escape text))) ∙ scan-escape text init [] [] refl in
    rw whole
      (unfold scan in ground (arith, is_init-after_all text, after_all-is_escaped init text refl))
