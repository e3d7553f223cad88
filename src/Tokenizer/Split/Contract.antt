-- ===== src/Tokenizer/Split/Contract.antt =====
-- The split tokenizer keeps the contract of tokenizers.
use deprecated_yandex_contes.Base.{
  ℕ, suc, ◌+◌, ◌<◌, Bool, true, false, [], ◌∷◌, Bytes, length, length-append, ℤ, pos, Result, ok,
  ◌>>=◌, ◌==◌, ◌++◌, ◌≡◌, refl, ◌∙◌, arith, ◌≤◌, ◌⊎◌, inl, inr, Bool-cases, >>=-assoc,
}
use deprecated_yandex_contes.Tokenizer.{
  continue, accepted, TokenizerResult, instance_of, status_of, tokenize,
}
use deprecated_yandex_contes.Tokenizer.Laws.{IsTokenizer, shift}
use deprecated_yandex_contes.Tokenizer.Split.{Split, c_string, new, step, scan, parse, split}

-- The assertion at the head of the loop holds.
abbrev pub Ready : Split → Type 0
Ready t = t.over < t.sep_size

pub step-le :
    (t : Split) (c : ℕ)
    → Ready t
    → ((step t c).over ≤ t.sep_size) × ((step t c).sep_size ≡ t.sep_size)
unfolding step
step-le t c h = ground arith

module _ (size : ℕ) (t : Split) (i c : ℕ) (cs : Bytes) (ready : Ready t) where
  pub scan-full :
      ((step t c).over == (step t c).sep_size) ≡ true
      → scan size t i (c ∷ cs) ≡ ok (step t c, pos 1, i + 1)
  unfolding scan
  scan-full full = ground arith

  pub scan-part :
      ((step t c).over == (step t c).sep_size) ≡ false
      → scan size t i (c ∷ cs) ≡ scan size (step t c) (i + 1) cs
  unfolding scan
  scan-part part = ground arith

-- What the loop returns: it accepts within the chunk, or wants more and is ready for it.
abbrev pub Answer : ℕ → ℕ → Result (Split × ℤ × ℕ) → Type 0
Answer size last r =
    ((t : Split) × (n : ℕ) × (r ≡ ok (t, pos 1, n)) × (n ≤ last))
    ⊎ ((t : Split) × (r ≡ ok (t, pos 0, size)) × Ready t)

pub scan-Answer :
    (size : ℕ) (t : Split) (i : ℕ) (cs : Bytes)
    → Ready t
    → Answer size (i + length cs) (scan size t i cs)
unfolding scan
scan-Answer size t i [] h = inr (t, refl, h)
scan-Answer size t i (c ∷ cs) h = elim (Bool-cases ((step t c).over == (step t c).sep_size)) [
  | inl full ↦ inl (step t c, i + 1, scan-full size t i c cs h full, omega arith)
  | inr part ↦
      let next : Ready (step t c) = ground (arith, step-le t c h) in
      let e : i + 1 + length cs ≡ i + suc (length cs) = omega arith in
      rw (scan-part size t i c cs h part, ← e) (scan-Answer size (step t c) (i + 1) cs next)
]

scan-shift :
    (k size : ℕ) (t : Split) (i : ℕ) (cs : Bytes)
    → scan (k + size) t (k + i) cs
      ≡ scan size t i cs >>= λ (r : Split × ℤ × ℕ). ok (r.0, r.1, k + r.2)
unfolding scan
scan-shift k size t i [] = refl
scan-shift k size t i (c ∷ cs) =
    let e : k + (i + 1) ≡ k + i + 1 = omega arith in
    ground (arith, rw e at (scan-shift k size (step t c) (i + 1) cs))

scan-append :
    (size size' : ℕ) (t : Split) (i : ℕ) (xs ys : Bytes) {t' : Split} {n : ℕ}
    → scan size t i xs ≡ ok (t', pos 0, n)
    → scan size' t i (xs ++ ys) ≡ scan size' t' (i + length xs) ys
unfolding scan
scan-append size size' t i [] ys {t'} e =
    let same : t ≡ t' = ground arith in
    let none_yet : i + 0 ≡ i = omega arith in rw (same, none_yet)
scan-append size size' t i (x ∷ xs) ys {t'} {n} e =
    let k : i + suc (length xs) ≡ i + 1 + length xs = omega arith in
    rw k (ground (arith, scan-append size size' (step t x) (i + 1) xs ys {t' = t'} {n = n}))

module _ (tok_memory sep_memory : Bool) where
  pub tokenize-scan :
      (t : Split) (chunk : Bytes)
      → Ready t
      → tokenize (split tok_memory sep_memory) t chunk
        ≡ scan (length chunk) t 0 chunk >>= λ (r : Split × ℤ × ℕ).
            ok (r.0, record { status = status_of r.1; accepted = r.2 })
  unfolding tokenize parse
  tokenize-scan t chunk h = ground arith

  runs :
      (t : Split) (chunk : Bytes)
      → Ready t
      → (r : Split × TokenizerResult) × (tokenize (split tok_memory sep_memory) t chunk ≡ ok r)
  unfolding tokenize parse
  runs t chunk h = elim (scan-Answer (length chunk) t 0 chunk h) [
    | inl (t', n, e, _) ↦ ((t', record { status = accepted; accepted = n }), ground arith)
    | inr (t', e, _) ↦ ((t', record { status = continue; accepted = length chunk }), ground arith)
  ]

  stays-Ready :
      (t : Split) (chunk : Bytes) {r : Split × TokenizerResult}
      → Ready t
      → tokenize (split tok_memory sep_memory) t chunk ≡ ok r
      → r.1.status ≡ continue
      → Ready r.0
  unfolding tokenize parse
  stays-Ready t chunk h e a = ground (arith, scan-Answer (length chunk) t 0 chunk h)

  bounded :
      (t : Split) (chunk : Bytes) {r : Split × TokenizerResult}
      → Ready t
      → tokenize (split tok_memory sep_memory) t chunk ≡ ok r
      → r.1.status ≡ accepted
      → r.1.accepted ≤ length chunk
  unfolding tokenize parse
  bounded t chunk h e a = ground (arith, scan-Answer (length chunk) t 0 chunk h)

  answer_state :
      (t : Split) (xs : Bytes) {r : Split × TokenizerResult} {t' : Split}
      → Ready t
      → tokenize (split tok_memory sep_memory) t xs ≡ ok r
      → scan (length xs) t 0 xs ≡ ok (t', pos 0, length xs)
      → r.0 ≡ t'
  answer_state t xs {r} h e p = let q = rw (tokenize-scan t xs h, p) at e in ground arith

  resumes :
      (t : Split) (xs ys : Bytes) {r : Split × TokenizerResult}
      → Ready t
      → tokenize (split tok_memory sep_memory) t xs ≡ ok r
      → r.1.status ≡ continue
      → tokenize (split tok_memory sep_memory) t (xs ++ ys)
        ≡ tokenize (split tok_memory sep_memory) r.0 ys >>= λ (q : Split × TokenizerResult).
            ok (shift (length xs) q)
  unfolding status_of
  resumes t xs ys {r} h e a = elim (scan-Answer (length xs) t 0 xs h) [
    | inl (t', n, p, _) ↦ let q = rw (tokenize-scan t xs h, p) at e in ground arith
    | inr (t', p, ready) ↦
        let off : 0 + length xs ≡ length xs + 0 = omega arith in
        let whole : scan (length (xs ++ ys)) t 0 (xs ++ ys)
            ≡ scan (length ys) t' 0 ys >>= λ (q : Split × ℤ × ℕ). ok (q.0, q.1, length xs + q.2) =
          rw (length-append xs ys) (
            (rw off at (scan-append (length xs) (length xs + length ys) t 0 xs ys p))
            ∙ scan-shift (length xs) (length ys) t' 0 ys) in
        let same : r.0 ≡ t' = answer_state t xs h e p in
        rw (
          tokenize-scan t (xs ++ ys) h,
          whole,
          same,
          tokenize-scan t' ys ready,
          >>=-assoc (scan (length ys) t' 0 ys) _ _,
          >>=-assoc (scan (length ys) t' 0 ys) _ _,
        )
  ]

  -- The tokenizer of split.c keeps the contract of a tokenizer while its separator is not empty and
  -- not wholly matched: it returns, accepts at most the chunk, stays ready when it waits, and
  -- answers the same however the output is cut.
  pub split-IsTokenizer : IsTokenizer (split tok_memory sep_memory) Ready
  split-IsTokenizer = record {
    runs = runs;
    bounded = bounded;
    stays_ready = stays-Ready;
    resumes = resumes;
  }

-- The tokenizer that `tokenizer_new` makes of a line.
abbrev pub fresh : Bytes → Split
fresh line = record { sep = c_string line; sep_size = length (c_string line); over = 0 }

pub instance_of-fresh :
    (tok_memory sep_memory : Bool) (line : Bytes) {t : Split}
    → instance_of (split tok_memory sep_memory) line ≡ ok t
    → t ≡ fresh line
unfolding instance_of new
instance_of-fresh tok_memory sep_memory line e = ground arith
