-- ===== src/Tokenizer/SplitChar/First.antt =====
-- src/tokenizers/split_char.c: which token it accepts.
use deprecated_yandex_contes.Base.{
  ℕ, suc, ◌+◌, Bool, false, [], ◌∷◌, ◌++◌, none, some, Option-cases, Bool-cases, Bytes, All, length,
  ok, ◌==◌, ◌⊎◌, inl, inr, ◌≡◌, sym, ap, ◌∙◌, arith,
}
use deprecated_yandex_contes.Tokenizer.{accepted, continue, tokenize, status_of}
use deprecated_yandex_contes.Tokenizer.SplitChar.{SplitChar, memchr, parse, split_char}

-- No byte of the text is `c`.
abbrev pub Lacks : ℕ → Bytes → Type 0
Lacks c bs = All (λ b. (b == c) ≡ false) bs

-- The text up to its first `c`, and what stands behind that.
abbrev pub CutAt : ℕ → Bytes → ℕ → Type 0
CutAt c bs i =
    (front : Bytes) × (rest : Bytes) × (bs ≡ front ++ c ∷ rest) × (i ≡ length front) × Lacks c front

memchr-CutAt : (c : ℕ) (bs : Bytes) {i : ℕ} → memchr c bs ≡ some i → CutAt c bs i
unfolding memchr
memchr-CutAt c [] h = cc
memchr-CutAt c (b ∷ bs) {i} h = elim (Bool-cases (b == c)) [
  | inl e ↦
      let same : b ≡ c = ground arith in
      let here : 0 ≡ i = ground arith in ([], bs, ap (λ x. x ∷ bs) same, sym here, tt)
  | inr d ↦ elim (Option-cases (memchr c bs)) [
    | inl n ↦ let bad : none ≡ some i = rw (d, n) at h in cc
    | inr (j, p) ↦
        let (front, rest, cut, at, lacks) = memchr-CutAt c bs p in
        let k : suc j ≡ i = ground arith in
        (b ∷ front, rest, ap (◌∷◌ b) cut, sym k ∙ ap suc at, (d, lacks))
  ]
]

memchr-Lacks : (c : ℕ) (bs : Bytes) → memchr c bs ≡ none → Lacks c bs
unfolding memchr
memchr-Lacks c [] h = tt
memchr-Lacks c (b ∷ bs) h = elim (Bool-cases (b == c)) [
  | inl e ↦ absurd (ground arith)
  | inr d ↦ elim (Option-cases (memchr c bs)) [
    | inl n ↦ (d, memchr-Lacks c bs n)
    | inr (j, p) ↦ absurd (ground arith)
  ]
]

-- A call of the tokenizer of split_char.c either finds the separator, and accepts the text up to
-- its first occurrence with the separator itself, or the text has none, and it waits for more.
pub split_char_first :
    (memory : Bool) (t : SplitChar) (chunk : Bytes)
    → ((i : ℕ) × (tokenize (split_char memory) t chunk
          ≡ ok (t, record { status = accepted; accepted = i + 1 }))
        × CutAt t.sep chunk i)
      ⊎ ((tokenize (split_char memory) t chunk
            ≡ ok (t, record { status = continue; accepted = length chunk }))
          × Lacks t.sep chunk)
unfolding tokenize parse status_of
split_char_first memory t chunk = elim (Option-cases (memchr t.sep chunk)) [
  | inl n ↦ inr (ground arith, memchr-Lacks t.sep chunk n)
  | inr (i, p) ↦ inl (i, ground arith, memchr-CutAt t.sep chunk p)
]
