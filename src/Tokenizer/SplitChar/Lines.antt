-- ===== src/Tokenizer/SplitChar/Lines.antt =====
-- src/tokenizers/split_char.c: its tokens are the lines of a text, each with the byte that ends it.
use mathlib.Core.Option
use deprecated_yandex_contes.Base.{
  ℕ, suc, Bool, List, [], ◌∷◌, ◌++◌, Option, none, some, Option-cases, Bool-cases, Bytes, take,
  drop, ok, ◌==◌, if◌then◌else◌, inl, inr, ◌≡◌, refl, sym, ap, ◌∙◌, arith,
}
use deprecated_yandex_contes.Tokenizer.{accepted, tokenize, status_of}
use deprecated_yandex_contes.Tokenizer.SplitChar.{SplitChar, memchr, parse, split_char}

-- The text up to its first `c`, with it, and the text behind that.
unfoldable pub break_at : ℕ → Bytes → Option (Bytes × Bytes)
break_at c [] = none
break_at c (b ∷ bs) =
    let rest = break_at c bs in
    if b == c then some (b ∷ [], bs) else Option.map (λ (r : Bytes × Bytes). (b ∷ r.0, r.1)) rest

-- The lines at the head of a text, where each ends with its own byte, and the text behind them.
unfoldable pub first_lines : List ℕ → Bytes → Option (List Bytes × Bytes)
first_lines [] bs = some ([], bs)
first_lines (c ∷ cs) bs = elim (break_at c bs) [
  | none ↦ none
  | some (line, rest) ↦
      Option.map (λ (r : List Bytes × Bytes). (line ∷ r.0, r.1)) (first_lines cs rest)
]

memchr-break_at :
    (c : ℕ) (bs : Bytes) {i : ℕ}
    → memchr c bs ≡ some i
    → break_at c bs ≡ some (take (suc i) bs, drop (suc i) bs)
unfolding memchr break_at
memchr-break_at c [] h = cc
memchr-break_at c (b ∷ bs) {i} h = elim (Bool-cases (b == c)) [
  | inl e ↦ let here : 0 ≡ i = ground arith in rw (e, sym here) refl
  | inr d ↦ elim (Option-cases (memchr c bs)) [
    | inl n ↦ let bad : none ≡ some i = rw (d, n) at h in cc
    | inr (j, p) ↦ let k : suc j ≡ i = ground arith in rw (d, memchr-break_at c bs p, sym k) refl
  ]
]

-- The token that split_char.c accepts is the first line.
pub tokenize-break_at :
    (memory : Bool) (t t' : SplitChar) (whole : Bytes) (n : ℕ)
    → tokenize (split_char memory) t whole ≡ ok (t', record { status = accepted; accepted = n })
    → break_at t.sep whole ≡ some (take n whole, drop n whole)
unfolding tokenize parse status_of
tokenize-break_at memory t t' whole n e = elim (Option-cases (memchr t.sep whole)) [
  | inl never ↦ absurd (ground arith)
  | inr (i, p) ↦
      let k : suc i ≡ n = ground arith in
      memchr-break_at t.sep whole p ∙ ap (λ m. some (take m whole, drop m whole)) k
]

-- More text behind the first line is left for later.
break_at-append :
    (c : ℕ) (bs more : Bytes) {line rest : Bytes}
    → break_at c bs ≡ some (line, rest)
    → break_at c (bs ++ more) ≡ some (line, rest ++ more)
unfolding break_at
break_at-append c [] more h = cc
break_at-append c (b ∷ bs) more {line} {rest} h = elim (Bool-cases (b == c)) [
  | inl e ↦
      let here : some (b ∷ [], bs) ≡ some (line, rest) = rw e at h in
      rw e (ap (Option.map λ (r : Bytes × Bytes). (r.0, r.1 ++ more)) here)
  | inr d ↦ elim (Option-cases (break_at c bs)) [
    | inl n ↦
        let bad : ◌≡◌ {A = Option (Bytes × Bytes)} none (some (line, rest)) = rw (d, n) at h in
        absurd cc
    | inr ((l, r), p) ↦
        let here : some (b ∷ l, r) ≡ some (line, rest) = rw (d, p) at h in
        rw (d, break_at-append c bs more p)
          (ap (Option.map λ (r : Bytes × Bytes). (r.0, r.1 ++ more)) here)
  ]
]

pub first_lines-cons :
    (c : ℕ) (cs : List ℕ) (bs more : Bytes) {line rest : Bytes} {lines : List Bytes} {end : Bytes}
    → break_at c bs ≡ some (line, rest)
    → first_lines cs (rest ++ more) ≡ some (lines, end)
    → first_lines (c ∷ cs) (bs ++ more) ≡ some (line ∷ lines, end)
unfolding first_lines
first_lines-cons c cs bs more {line} {rest} {lines} {end} h k =
    let add : List Bytes × Bytes → List Bytes × Bytes = λ r. (line ∷ r.0, r.1) in
    let next : Option (Bytes × Bytes) → Option (List Bytes × Bytes) = λ o. elim o [
      | none ↦ none
      | some (l, r) ↦ Option.map (λ (x : List Bytes × Bytes). (l ∷ x.0, x.1)) (first_lines cs r)
    ] in
    ap next (break_at-append c bs more h) ∙ ap (Option.map add) k
