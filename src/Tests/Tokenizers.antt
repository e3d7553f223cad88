-- ===== src/Tests/Tokenizers.antt =====
-- The two tokenizers at concrete inputs.
use deprecated_yandex_contes.Base.{
  [], ◌∷◌, ℕ, ◌+◌, ◌⊎◌, ◌≢◌, true, codes, ok, ◌≡◌, refl, arith, ◌≤◌, ◌++◌, take,
}
use deprecated_yandex_contes.Tokenizer.{
  TokenizerResult, continue, accepted, tokenize, instance_of, status_of,
}
use deprecated_yandex_contes.Tokenizer.Laws.{IsTokenizer}
use deprecated_yandex_contes.Tokenizer.SplitChar.{SplitChar, split_char}
use deprecated_yandex_contes.Tokenizer.SplitChar.Contract.{split_char-IsTokenizer}
use deprecated_yandex_contes.Tokenizer.SplitChar.First.{CutAt, Lacks, split_char_first}
use deprecated_yandex_contes.Tokenizer.Split.Missed.{split_missed}
use deprecated_yandex_contes.Tokenizer.Split.{Split, split, byte_at, c_string}
use deprecated_yandex_contes.Tokenizer.Split
use deprecated_yandex_contes.Tokenizer.Split.Contract.{Ready, split-IsTokenizer, fresh}
use deprecated_yandex_contes.Tokenizer.Split.Found.{HeadOnce, split_finds}
use deprecated_yandex_contes.Tokenizer.Split.Matching.{EndsWith, split_accepts}

split_char-IsTokenizer_example : IsTokenizer (split_char true) (λ _. Unit {0})
split_char-IsTokenizer_example = split_char-IsTokenizer true

split-IsTokenizer_example : IsTokenizer (split true true) Ready
split-IsTokenizer_example = split-IsTokenizer true true

new_split : instance_of (split true true) (codes "ab") ≡ ok (fresh (codes "ab"))
unfolding instance_of Split.new c_string
new_split = refl

split_run :
    tokenize (split true true) (fresh (codes "ab")) (codes "xabz")
    ≡ ok (
      record { sep = codes "ab"; sep_size = 2; over = 2 },
      record { status = accepted; accepted = 3 },
    )
unfolding tokenize Split.parse Split.scan Split.step byte_at status_of c_string
split_run = refl

split_accepts_example : EndsWith (codes "xab") (codes "ab")
unfolding c_string
split_accepts_example =
    split_accepts true true (codes "ab") (codes "xabz") new_split (unfold c_string in omega arith)
      split_run refl

ab-HeadOnce : HeadOnce (c_string (codes "ab"))
unfolding c_string byte_at
ab-HeadOnce i inside below =
    let e : i ≡ 1 = omega arith in rw e (λ same. absurd (omega (arith, same)))

split_finds_example :
    (r : Split × TokenizerResult) × (tokenize
        (split true true)
        (fresh (codes "ab"))
        (codes "xa" ++ c_string (codes "ab") ++ codes "z")
      ≡ ok r)
    × (r.1.status ≡ accepted)
    × (r.1.accepted ≤ 4)
    × EndsWith
        (take r.1.accepted (codes "xa" ++ c_string (codes "ab") ++ codes "z"))
        (c_string (codes "ab"))
unfolding c_string
split_finds_example =
    split_finds true true (codes "ab") (codes "xa") (codes "z") new_split
      (unfold c_string in omega arith) ab-HeadOnce

abbrev comma : SplitChar
comma = record { sep = b',' }

split_char_first_example :
    ((i : ℕ) × (tokenize (split_char true) comma (codes "a,b,")
        ≡ ok (comma, record { status = accepted; accepted = i + 1 }))
      × CutAt b',' (codes "a,b,") i)
    ⊎ ((tokenize (split_char true) comma (codes "a,b,")
          ≡ ok (comma, record { status = continue; accepted = 4 }))
        × Lacks b',' (codes "a,b,"))
split_char_first_example = split_char_first true comma (codes "a,b,")

different : ◌≢◌ {A = ℕ} b'a' b'b'
different = λ p. omega (arith, p)

split_missed_example :
    (t : Split) × (instance_of (split true true) (b'a' ∷ b'a' ∷ b'b' ∷ []) ≡ ok t)
    × (tokenize (split true true) t (b'a' ∷ b'a' ∷ b'a' ∷ b'b' ∷ [])
        ≡ ok (t, record { status = continue; accepted = 4 }))
split_missed_example =
    split_missed b'a' b'b' different (λ p. omega (arith, p)) (λ p. omega (arith, p))
