-- ===== src/Text/Escape/RoundTrip.antt =====
-- `unescape` undoes `escape`.
use deprecated_yandex_contes.Base.{
  ℕ, Bool, false, ◌||◌, [], ◌∷◌, ◌++◌, Bytes, ◌==◌, if◌then◌else◌, ok, ◌≡◌, ◌⊎◌, refl, ◌∙◌, arith,
  append-nil, append_assoc,
}
use deprecated_yandex_contes.Text.Escape.{
  escape_byte, escape, State, init, ordinal, escaped, is_escaped, scan, unescape,
}

-- The state behind the escaped form of a byte.
unfoldable pub after : State → ℕ → State
after s c = if c == b' ' || c == b'\n' || c == b'\\' then ordinal else s

after-is_escaped : (s : State) (c : ℕ) → is_escaped s ≡ false → is_escaped (after s c) ≡ false
unfolding after
after-is_escaped s c h = ground arith

-- The loop over the escaped form of one byte, from a state that is not `escaped`.
scan-escape_byte :
    (s : State) (buf : Bytes) (c : ℕ) (rest : Bytes)
    → is_escaped s ≡ false
    → scan s buf (escape_byte c ++ rest) ≡ scan (after s c) (buf ++ c ∷ []) rest
unfolding scan escape_byte after
scan-escape_byte init buf c rest h = ground arith
scan-escape_byte ordinal buf c rest h = ground arith
scan-escape_byte escaped buf c rest h = cc

unfoldable pub after_all : State → Bytes → State
after_all s [] = s
after_all s (c ∷ cs) = after_all (after s c) cs

pub after_all-is_escaped :
    (s : State) (cs : Bytes) → is_escaped s ≡ false → is_escaped (after_all s cs) ≡ false
unfolding after_all
after_all-is_escaped s [] h = h
after_all-is_escaped s (c ∷ cs) h = after_all-is_escaped (after s c) cs (after-is_escaped s c h)

pub scan-escape :
    (cs : Bytes) (s : State) (buf rest : Bytes)
    → is_escaped s ≡ false
    → scan s buf (escape cs ++ rest) ≡ scan (after_all s cs) (buf ++ cs) rest
unfolding escape after_all
scan-escape [] s buf rest h = rw append-nil
scan-escape (c ∷ cs) s buf rest h = rw append_assoc (
    scan-escape_byte s buf c (escape cs ++ rest) h
    ∙ scan-escape cs (after s c) (buf ++ c ∷ []) rest (after-is_escaped s c h)
    ∙ rw append_assoc)

-- unescape reads back any escaped text in front of a blank or a newline; it takes that byte too,
-- and reports the end of the line at the newline only.
pub unescape-escape :
    (text rest : Bytes) (d : ℕ) (broken : Bool)
    → (d ≡ b' ') ⊎ (d ≡ b'\n')
    → unescape (record { rest = escape text ++ d ∷ rest; broken = broken }) false
      ≡ ok (record {
        text = text;
        end = d == b'\n';
        input = record { rest = rest; broken = broken };
      })
unfolding unescape
unescape-escape text rest d broken h =
    rw (scan-escape text init [] (d ∷ rest) refl)
      (ground (arith, after_all-is_escaped init text refl))
