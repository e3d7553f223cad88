-- ===== src/Tokenizer/Split/Matching.antt =====
-- Which tokens the split tokenizer accepts.
use deprecated_yandex_contes.Base.{
  ℕ, zero, suc, ◌+◌, ◌<◌, Bool, true, [], ◌∷◌, Bytes, length, pos, ok, ◌==◌, ◌++◌, ◌≡◌, refl, sym,
  ap, ◌∙◌, arith, inl, inr, Bool-cases, take, append_assoc, append-nil,
}
use native.Mathlib.Numerals.{add-one}
use deprecated_yandex_contes.Tokenizer.{accepted, TokenizerResult, instance_of, status_of, tokenize}
use deprecated_yandex_contes.Tokenizer.Split.{Split, c_string, byte_at, step, scan, split}
use deprecated_yandex_contes.Tokenizer.Split.Contract.{
  Ready, step-le, scan-full, scan-part, tokenize-scan, scan-Answer, fresh, instance_of-fresh,
}

-- `seen` ends with `word`.
abbrev pub EndsWith : Bytes → Bytes → Type 0
EndsWith seen word = (front : Bytes) × (seen ≡ front ++ word)

-- The first `over` bytes of the separator are the last bytes seen.
pub record Tracks (t : Split) (seen : Bytes) : Type 0 where
  pub sized : t.sep_size ≡ length t.sep
  pub matched : EndsWith seen (take t.over t.sep)

take-suc :
    (i : ℕ) (sep : Bytes) → i < length sep → take (suc i) sep ≡ take i sep ++ byte_at sep i ∷ []
unfolding byte_at
take-suc i [] h = absurd (omega arith)
take-suc zero (b ∷ bs) h = refl
take-suc (suc i) (b ∷ bs) h = ap (◌∷◌ b) (take-suc i bs (omega arith))

take-snoc :
    (i : ℕ) (sep : Bytes) (c : ℕ)
    → i < length sep
    → (c == byte_at sep i) ≡ true
    → take (i + 1) sep ≡ take i sep ++ c ∷ []
take-snoc i sep c h m =
    let same : byte_at sep i ≡ c = ground arith in rw (add-one, ← same) (take-suc i sep h)

EndsWith-snoc :
    (seen word : Bytes) (c : ℕ) → EndsWith seen word → EndsWith (seen ++ c ∷ []) (word ++ c ∷ [])
EndsWith-snoc seen word c (front, e) = (front, rw e (append_assoc front word (c ∷ [])))

EndsWith-nil : (seen : Bytes) → EndsWith seen []
EndsWith-nil seen = (seen, sym (append-nil seen))

step-Tracks :
    (t : Split) (seen : Bytes) (c : ℕ)
    → Ready t
    → Tracks t seen
    → Tracks (step t c) (seen ++ c ∷ [])
unfolding step
step-Tracks t seen c h tr = elim (Bool-cases (c == byte_at t.sep t.over)) [
  | inl hit ↦
      rw (hit, step)
        (record {
          sized = tr.sized;
          matched =
              rw (take-snoc t.over t.sep c (rw tr.sized at h) hit)
                (EndsWith-snoc seen (take t.over t.sep) c tr.matched);
        })
  | inr miss ↦
      rw (miss, step)
        (elim (Bool-cases (c == byte_at t.sep 0)) [
          | inl first ↦
              rw (first, step)
                (record {
                  sized = tr.sized;
                  matched =
                      rw (take-snoc 0 t.sep c (omega (arith, tr.sized)) first)
                        (EndsWith-snoc seen [] c (EndsWith-nil seen));
                })
          | inr other ↦ rw (other, step) (record { sized = tr.sized; matched = EndsWith-nil _ })
        ])
]

take-length : (sep : Bytes) → take (length sep) sep ≡ sep
take-length [] = refl
take-length (b ∷ bs) = ap (◌∷◌ b) (take-length bs)

-- A separator that is matched in full is the end of what was seen.
Tracks-full :
    (t : Split) (seen : Bytes) → (t.over == t.sep_size) ≡ true → Tracks t seen → EndsWith seen t.sep
Tracks-full t seen full tr =
    let whole : t.over ≡ length t.sep = ground (arith, tr.sized) in
    let (front, e) = tr.matched in
    (front, e ∙ ap (λ k. front ++ take k t.sep) whole ∙ ap (◌++◌ front) (take-length t.sep))

pub step-sep : (t : Split) (c : ℕ) → (step t c).sep ≡ t.sep
unfolding step
step-sep t c = ground arith

scan-accepts :
    (size : ℕ) (t : Split) (i : ℕ) (seen cs : Bytes) {t' : Split} {n : ℕ}
    → Ready t
    → Tracks t seen
    → scan size t i cs ≡ ok (t', pos 1, n)
    → (k : ℕ) × (n ≡ i + k) × EndsWith (seen ++ take k cs) t.sep
scan-accepts size t i seen [] h tr e = absurd (unfold scan in ground arith)
scan-accepts size t i seen (c ∷ cs) {t'} {n} h tr e =
    let next = step-Tracks t seen c h tr in
    elim (Bool-cases ((step t c).over == (step t c).sep_size)) [
      | inl full ↦
          let now = rw (scan-full size t i c cs h full) at e in
          let place : n ≡ i + 1 = ground arith in
          (1, place, rw (step-sep t c) at (Tracks-full (step t c) (seen ++ c ∷ []) full next))
      | inr part ↦
          let later = rw (scan-part size t i c cs h part) at e in
          let ready : Ready (step t c) = ground (arith, step-le t c h) in
          let (k, place, ends) =
            scan-accepts size (step t c) (i + 1) (seen ++ c ∷ []) cs ready next later in
          (suc k, omega arith, rw (append_assoc seen (c ∷ []) (take k cs), step-sep t c) at ends)
    ]

fresh-Tracks : (line : Bytes) → Tracks (fresh line) []
fresh-Tracks line = record { sized = refl; matched = EndsWith-nil [] }

-- A new tokenizer of split.c for a separator that does not begin with a zero byte accepts only
-- output that ends with the separator.
pub split_accepts :
    (tok_memory sep_memory : Bool) (line chunk : Bytes) {t : Split} {r : Split × TokenizerResult}
    → instance_of (split tok_memory sep_memory) line ≡ ok t
    → 0 < length (c_string line)
    → tokenize (split tok_memory sep_memory) t chunk ≡ ok r
    → r.1.status ≡ accepted
    → EndsWith (take r.1.accepted chunk) (c_string line)
unfolding status_of
split_accepts tok_memory sep_memory line chunk {t} {r} made ne e a =
    let now =
      rw
        (
          instance_of-fresh tok_memory sep_memory line made,
          tokenize-scan tok_memory sep_memory (fresh line) chunk ne,
        )
        at e in
    elim (scan-Answer (length chunk) (fresh line) 0 chunk ne) [
      | inl (t', n, p, _) ↦
          let (k, place, ends) =
            scan-accepts (length chunk) (fresh line) 0 [] chunk ne (fresh-Tracks line) p in
          let q = rw p at now in let same : r.1.accepted ≡ k = ground arith in rw same ends
      | inr (t', p, _) ↦ let q = rw p at now in absurd (ground arith)
    ]
