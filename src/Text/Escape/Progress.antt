-- ===== src/Text/Escape/Progress.antt =====
-- How much input a token takes.
use deprecated_yandex_contes.Base.{
  ℕ, ◌≤◌, ◌<◌, Bool, true, false, [], ◌∷◌, none, Bytes, length, ok, err, ◌>>=◌, >>=-eq-ok,
  >>=-ne-err, pending, ◌≡◌, ◌≢◌, ◌⊎◌, inl, inr, arith, Bool-cases,
}
use deprecated_yandex_contes.Text.Streams.{IStream}
use deprecated_yandex_contes.Text.Escape.{
  State, init, Scan, step, stops, scan, Token, finish, unescape,
}

-- A loop that a byte ended has taken that byte.
abbrev Takes : Bytes → Scan → Type 0
Takes cs sc = (length sc.rest ≤ length cs) × ((sc.stop ≡ none) ⊎ (length sc.rest < length cs))

scan-Takes : (s : State) (buf cs : Bytes) {sc : Scan} → scan s buf cs ≡ ok sc → Takes cs sc
unfolding scan
scan-Takes s buf [] e = ground arith
scan-Takes s buf (c ∷ cs) {sc} e = elim (Bool-cases (stops s c)) [
  | inl stop ↦ ground arith
  | inr go ↦
      let more : (step s buf c >>= λ p. scan p.0 p.1 cs) ≡ ok sc = ground arith in
      let (p, _, later) = >>=-eq-ok (step s buf c) (λ p. scan p.0 p.1 cs) more in
      let ih = scan-Takes p.0 p.1 cs later in omega arith
]

finish-Takes :
    (sc : Scan) (broken : Bool) (cs : Bytes) {token : Token}
    → finish sc broken sc.stop ≡ ok token
    → Takes cs sc
    → (length token.input.rest ≤ length cs)
      × ((token.end ≡ true) ⊎ (length token.input.rest < length cs))
unfolding finish
finish-Takes sc broken cs e t = ground arith

-- A token that does not end its line has taken a byte.
pub unescape-Takes :
    (input : IStream) (end : Bool) {token : Token}
    → unescape input end ≡ ok token
    → (length token.input.rest ≤ length input.rest)
      × ((token.end ≡ true) ⊎ (length token.input.rest < length input.rest))
unfolding unescape
unescape-Takes input true e = cc
unescape-Takes input false e =
    let (sc, s, f) = >>=-eq-ok (scan init [] input.rest) (λ sc. finish sc input.broken sc.stop) e in
    finish-Takes sc input.broken input.rest f (scan-Takes init [] input.rest s)

step-ne-pending : (s : State) (buf : Bytes) (c : ℕ) → step s buf c ≢ err pending
unfolding step
step-ne-pending _ buf c = ground arith

scan-ne-pending : (s : State) (buf cs : Bytes) → scan s buf cs ≢ err pending
unfolding scan
scan-ne-pending s buf [] = ground arith
scan-ne-pending s buf (c ∷ cs) =
    let chain : (step s buf c >>= λ p. scan p.0 p.1 cs) ≢ err pending =
      >>=-ne-err pending (step s buf c) (λ p. scan p.0 p.1 cs) (step-ne-pending s buf c)
        (λ p. scan-ne-pending p.0 p.1 cs) in
    elim (Bool-cases (stops s c)) [ inl stop ↦ ground arith | inr go ↦ ground arith ]

finish-ne-pending : (sc : Scan) (broken : Bool) → finish sc broken sc.stop ≢ err pending
unfolding finish
finish-ne-pending sc broken = ground arith

pub unescape-ne-pending : (input : IStream) (end : Bool) → unescape input end ≢ err pending
unfolding unescape
unescape-ne-pending input true = cc
unescape-ne-pending input false =
    >>=-ne-err pending (scan init [] input.rest) (λ sc. finish sc input.broken sc.stop)
      (scan-ne-pending init [] input.rest) (λ sc. finish-ne-pending sc input.broken)
