-- ===== src/Tokenizer/Split/Found.antt =====
-- Which tokens the split tokenizer does not miss: the separator's first byte stands only at its head.
use deprecated_yandex_contes.Base.{
  ℕ, suc, ◌+◌, ◌<◌, ◌≤◌, Bool, [], ◌∷◌, Bytes, length, length-append, pos, ok, Result, ℤ, ◌==◌,
  ◌++◌, ◌≡◌, ◌≢◌, refl, sym, ap, ◌∙◌, arith, inl, inr, Bool-cases, take, append_assoc,
}
use deprecated_yandex_contes.Tokenizer.{accepted, TokenizerResult, instance_of, status_of, tokenize}
use deprecated_yandex_contes.Tokenizer.Split.{Split, c_string, byte_at, step, scan, split}
use deprecated_yandex_contes.Tokenizer.Split.Contract.{
  Ready, step-le, scan-full, scan-part, tokenize-scan, fresh, instance_of-fresh,
}
use deprecated_yandex_contes.Tokenizer.Split.Matching.{EndsWith, split_accepts, step-sep}

-- The first byte of the separator stands nowhere else in it.
abbrev pub HeadOnce : Bytes → Type 0
HeadOnce sep = (i : ℕ) → 0 < i → i < length sep → byte_at sep 0 ≢ byte_at sep i

-- The tokenizer is one for this separator.
abbrev Cuts : Bytes → Split → Type 0
Cuts sep t = (t.sep ≡ sep) × (t.sep_size ≡ length sep)

-- The loop accepts at `last` or before.
abbrev Found : ℕ → Result (Split × ℤ × ℕ) → Type 0
Found last r = (t : Split) × (n : ℕ) × (r ≡ ok (t, pos 1, n)) × (n ≤ last)

byte_at-append : (w : Bytes) (c : ℕ) (cs : Bytes) → byte_at (w ++ c ∷ cs) (length w) ≡ c
unfolding byte_at
byte_at-append [] c cs = refl
byte_at-append (b ∷ w) c cs = byte_at-append w c cs

step-Cuts : (sep : Bytes) (t : Split) (c : ℕ) → Ready t → Cuts sep t → Cuts sep (step t c)
step-Cuts sep t c h (e, n) = (step-sep t c ∙ e, (step-le t c h).1 ∙ n)

step-hit : (t : Split) (c : ℕ) → byte_at t.sep t.over ≡ c → (step t c).over ≡ t.over + 1
unfolding step
step-hit t c e = ground arith

-- The first byte of the separator starts a new match, in whatever state.
step-head :
    (sep : Bytes) (t : Split)
    → Ready t
    → Cuts sep t
    → HeadOnce sep
    → (step t (byte_at sep 0)).over ≡ 1
unfolding step
step-head sep t h (e, k) once = elim (Bool-cases (t.over == 0)) [
  | inl new ↦ let o : t.over ≡ 0 = ground arith in rw (e, o) (ground arith)
  | inr old ↦
      let inside : 0 < t.over = ground arith in
      let other = once t.over inside (rw k at h) in rw e (ground arith)
]

step-at :
    {sep : Bytes} (t : Split) (w : Bytes) (c : ℕ) (cs : Bytes)
    → Cuts sep t
    → sep ≡ w ++ c ∷ cs
    → t.over ≡ length w
    → (step t c).over ≡ length w + 1
step-at t w c cs (same, n) e o =
    step-hit t c (rw (same, e, o) (byte_at-append w c cs)) ∙ ap (λ k. k + 1) o

step-first :
    {sep : Bytes} (t : Split) (c : ℕ) (cs : Bytes)
    → Ready t
    → Cuts sep t
    → HeadOnce sep
    → sep ≡ c ∷ cs
    → (step t c).over ≡ 1
step-first {sep} t c cs h cut once e =
    let head : byte_at sep 0 ≡ c = rw e (byte_at-append [] c cs) in
    rw head at (step-head sep t h cut once)

module _ (size : ℕ) (sep back : Bytes) where
  -- A byte behind which the loop stops, or goes on to what it finds.
  scan-next :
      (t : Split) (i c : ℕ) (cs : Bytes) (last : ℕ)
      → Ready t
      → i < last
      → (Ready (step t c) → Found last (scan size (step t c) (i + 1) cs))
      → Found last (scan size t i (c ∷ cs))
  scan-next t i c cs last h room later =
      elim (Bool-cases ((step t c).over == (step t c).sep_size)) [
        | inl full ↦ (step t c, i + 1, scan-full size t i c cs h full, omega arith)
        | inr part ↦
            let ready : Ready (step t c) = ground (arith, step-le t c h) in
            rw (scan-part size t i c cs h part) (later ready)
      ]

  -- Behind a part of the separator the loop takes the others, which stand there.
  scan-rest :
      (t : Split) (i : ℕ) (w : Bytes) (c : ℕ) (cs : Bytes)
      → Ready t
      → Cuts sep t
      → sep ≡ w ++ c ∷ cs
      → t.over ≡ length w
      → Found (i + suc (length cs)) (scan size t i (c ∷ cs ++ back))
  scan-rest t i w c [] h cut split_at o =
      let now = step-at t w c [] cut split_at o in
      let whole = ap length split_at ∙ length-append w (c ∷ []) in
      let full = (step-Cuts sep t c h cut).1 in
      scan-next t i c back (i + 1) h (omega arith)
        (λ ready. absurd (omega (arith, now, whole, full, ready)))
  scan-rest t i w c (d ∷ ds) h cut split_at o =
      let now = step-at t w c (d ∷ ds) cut split_at o in
      let e : i + 1 + suc (length ds) ≡ i + suc (suc (length ds)) = omega arith in
      let next = step-Cuts sep t c h cut in
      let word = split_at ∙ sym (append_assoc w (c ∷ []) (d ∷ ds)) in
      let place = now ∙ sym (length-append w (c ∷ [])) in
      scan-next t i c (d ∷ ds ++ back) (i + suc (suc (length ds))) h (omega arith)
        (λ ready. rw e at (scan-rest (step t c) (i + 1) (w ++ c ∷ []) d ds ready next word place))

  -- The separator is found in whatever state the loop comes to it.
  scan-word :
      (t : Split) (i c : ℕ) (cs : Bytes)
      → Ready t
      → Cuts sep t
      → HeadOnce sep
      → sep ≡ c ∷ cs
      → Found (i + suc (length cs)) (scan size t i (c ∷ cs ++ back))
  scan-word t i c [] h cut once e =
      let now = step-first t c [] h cut once e in
      let full = (step-Cuts sep t c h cut).1 in
      let whole = ap length e in
      scan-next t i c back (i + 1) h (omega arith)
        (λ ready. absurd (omega (arith, now, whole, full, ready)))
  scan-word t i c (d ∷ ds) h cut once e =
      let now = step-first t c (d ∷ ds) h cut once e in
      let k : i + 1 + suc (length ds) ≡ i + suc (suc (length ds)) = omega arith in
      let next = step-Cuts sep t c h cut in
      scan-next t i c (d ∷ ds ++ back) (i + suc (suc (length ds))) h (omega arith)
        (λ ready. rw k at (scan-rest (step t c) (i + 1) (c ∷ []) d ds ready next e now))

  scan-Found :
      (t : Split) (i : ℕ) (front : Bytes)
      → Ready t
      → Cuts sep t
      → HeadOnce sep
      → Found (i + length front + length sep) (scan size t i (front ++ sep ++ back))
  scan-Found t i [] h cut once = word sep refl
    where
      word : (s : Bytes) → sep ≡ s → Found (i + 0 + length sep) (scan size t i (sep ++ back))
      word [] e = absurd (omega (arith, h, cut.1, ap length e))
      word (c ∷ cs) e =
          let k : i + 0 + suc (length cs) ≡ i + suc (length cs) = omega arith in
          rw (e, k) (scan-word t i c cs h cut once e)
  scan-Found t i (b ∷ front) h cut once =
      let k : i + 1 + length front + length sep ≡ i + suc (length front) + length sep =
        omega arith in
      let next = step-Cuts sep t b h cut in
      scan-next t i b (front ++ sep ++ back) (i + suc (length front) + length sep) h (omega arith)
        (λ ready. rw k at (scan-Found (step t b) (i + 1) front ready next once))

-- A new tokenizer of split.c for a separator whose first byte stands nowhere else in it accepts any
-- output that holds the separator: at the latest at the end of this occurrence, and at the end of
-- one. The separator does not begin with a zero byte.
pub split_finds :
    (tok_memory sep_memory : Bool) (line front back : Bytes) {t : Split}
    → instance_of (split tok_memory sep_memory) line ≡ ok t
    → 0 < length (c_string line)
    → HeadOnce (c_string line)
    → let chunk = front ++ c_string line ++ back in
      (r : Split × TokenizerResult) × (tokenize (split tok_memory sep_memory) t chunk ≡ ok r)
      × (r.1.status ≡ accepted)
      × (r.1.accepted ≤ length front + length (c_string line))
      × EndsWith (take r.1.accepted chunk) (c_string line)
unfolding status_of
split_finds tok_memory sep_memory line front back {t} made ne once =
    let chunk = front ++ c_string line ++ back in
    let new = instance_of-fresh tok_memory sep_memory line made in
    let (t', n, p, place) =
      scan-Found (length chunk) (c_string line) back (fresh line) 0 front ne (refl, refl) once in
    let run : tokenize (split tok_memory sep_memory) t chunk
        ≡ ok (t', record { status = accepted; accepted = n }) =
      rw (new, tokenize-scan tok_memory sep_memory (fresh line) chunk ne, p) in
    (
      (t', record { status = accepted; accepted = n }),
      run,
      refl,
      omega (arith, place),
      split_accepts tok_memory sep_memory line chunk made ne run refl,
    )
