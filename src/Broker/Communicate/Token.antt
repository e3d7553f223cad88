-- ===== src/Broker/Communicate/Token.antt =====
-- The read loop takes the token that the tokenizer finds in the output as a whole, whatever the
-- chunks, and keeps what stands behind it.
use deprecated_yandex_contes.Base.{
  ℕ, ◌+◌, ◌≤◌, true, List, [], ◌∷◌, ◌++◌, Bytes, length, length-append, take, drop, take-length_add,
  drop-length_add, ok, ◌>>=◌, >>=-assoc, >>=-eq-ok, Bool-cases, ℤ, ◌≡◌, refl, sym, ap, ◌∙◌, arith,
  append_assoc, append-nil, inl, inr, subst, ok-injective,
}
use mathlib.Core.Path.{fun_ext}
use deprecated_yandex_contes.Tokenizer.{
  Status, fail, continue, accepted, TokenizerResult, TokenizerLibrary, tokenize,
}
use deprecated_yandex_contes.Tokenizer.Laws.{IsTokenizer, shift}
use deprecated_yandex_contes.Broker.Types.{ResultStatus}
use deprecated_yandex_contes.Broker.Communicate.Rule.{comm_loop_rule}
use deprecated_yandex_contes.Broker.Communicate.{
  Ends, Comm, Round, comm_loop, ReadAnswer, got, read_again, read_failed, is_continue, Reader,
  unwatch, file_answer, read_chunk, read_loop,
}

pub is_continue-eq : (s : Status) → is_continue s ≡ true → s ≡ continue
is_continue-eq continue h = refl
is_continue-eq fail h = cc
is_continue-eq accepted h = cc

module _ {T : Type 0} (lib : TokenizerLibrary T) (Ready : T → Type 0) (t₀ : T) where
  -- What the reader holds of the output `seen`, that a tokenizer `t₀` was made for: all of it, or the
  -- token and the rest.
  abbrev pub ScannedAt : Status → Bytes → Reader T → Type 0
  ScannedAt continue seen rd =
      Ready rd.tokenizer
      × (rd.result ≡ seen)
      × (rd.outbuf ≡ [])
      × ((ys : Bytes)
          → tokenize lib t₀ (seen ++ ys)
            ≡ tokenize lib rd.tokenizer ys >>= λ (q : T × TokenizerResult).
                ok (shift (length seen) q))
  ScannedAt accepted seen rd =
      (n : ℕ) × (tokenize lib t₀ seen
        ≡ ok (rd.tokenizer, record { status = accepted; accepted = n }))
      × (n ≤ length seen)
      × (rd.result ≡ take n seen)
      × (rd.outbuf ≡ drop n seen)
  ScannedAt fail seen rd =
      (n : ℕ) × (tokenize lib t₀ seen ≡ ok (rd.tokenizer, record { status = fail; accepted = n }))

  abbrev pub Scanned : Bytes → Reader T → Type 0
  Scanned seen rd = ScannedAt rd.status seen rd

  module _ (law : IsTokenizer lib Ready) where
    shift-shift : (k m : ℕ) (q : T × TokenizerResult) → shift k (shift m q) ≡ shift (k + m) q
    shift-shift k m (t, r) =
        let e : k + (m + r.accepted) ≡ k + m + r.accepted = omega arith in
        λ i. (t, record r { accepted = e i })

    module _ (rd : Reader T) (seen chunk : Bytes) (t : T) (r : TokenizerResult) where
      -- The tokenizer's answer to the chunk, as an answer to the whole output.
      pub whole :
          {s : Status}
          → r.status ≡ s
          → ScannedAt continue seen rd
          → tokenize lib rd.tokenizer chunk ≡ ok (t, r)
          → tokenize lib t₀ (seen ++ chunk)
            ≡ ok (t, record { status = s; accepted = length seen + r.accepted })
      whole a (_, _, _, go) p = go chunk ∙ rw (p, a)

      resumed :
          ScannedAt continue seen rd
          → tokenize lib rd.tokenizer chunk ≡ ok (t, r)
          → r.status ≡ continue
          → (ys : Bytes)
          → tokenize lib t₀ ((seen ++ chunk) ++ ys)
            ≡ tokenize lib t ys >>= λ (q : T × TokenizerResult).
                ok (shift (length (seen ++ chunk)) q)
      resumed (ready, _, _, go) p a ys =
          ap (tokenize lib t₀) (append_assoc seen chunk ys)
          ∙ go (chunk ++ ys)
          ∙ rw (law.resumes rd.tokenizer chunk ys ready p a, >>=-assoc (tokenize lib t ys) _ _)
              (ap (λ f. tokenize lib t ys >>= f) (fun_ext λ q. ap ok (both q)))
        where
          both :
              (q : T × TokenizerResult)
              → shift (length seen) (shift (length chunk) q) ≡ shift (length (seen ++ chunk)) q
          both q = rw (length-append seen chunk) (shift-shift (length seen) (length chunk) q)

      pub file_answer-Scanned :
          (s : Status) {rd' : Reader T}
          → r.status ≡ s
          → ScannedAt continue seen rd
          → tokenize lib rd.tokenizer chunk ≡ ok (t, r)
          → file_answer lib
              (record rd { tokenizer = t; status = s; taken = rd.taken ++ chunk })
              chunk
              r
              s
            ≡ ok rd'
          → Scanned (seen ++ chunk) rd' × (rd'.taken ≡ rd.taken ++ chunk)
      unfolding file_answer
      file_answer-Scanned fail a sc p e =
          let (watched', _, f) = >>=-eq-ok (unwatch rd.watched) _ e in
          subst (λ x. Scanned (seen ++ chunk) x × (x.taken ≡ rd.taken ++ chunk)) (ok-injective f)
            ((length seen + r.accepted, whole a sc p), refl)
      file_answer-Scanned continue a sc p e =
          subst (λ x. Scanned (seen ++ chunk) x × (x.taken ≡ rd.taken ++ chunk)) (ok-injective e)
            (
              (
                law.stays_ready rd.tokenizer chunk sc.0 p a,
                ap (λ x. x ++ chunk) sc.1,
                sc.2,
                resumed sc p a,
              ),
              refl,
            )
      file_answer-Scanned accepted a sc p e =
          subst (λ x. Scanned (seen ++ chunk) x × (x.taken ≡ rd.taken ++ chunk)) (ok-injective e)
            (
              (
                length seen + r.accepted,
                whole a sc p,
                omega (arith, length-append seen chunk, law.bounded rd.tokenizer chunk sc.0 p a),
                rw (take-length_add, sc.1),
                rw (drop-length_add, sc.2),
              ),
              refl,
            )

    read_chunk-Scanned :
        (rd : Reader T) (seen chunk : Bytes) {rd' : Reader T}
        → ScannedAt continue seen rd
        → read_chunk lib rd chunk ≡ ok rd'
        → Scanned (seen ++ chunk) rd' × (rd'.taken ≡ rd.taken ++ chunk)
    unfolding read_chunk
    read_chunk-Scanned rd seen chunk sc e =
        let ((t, r), p, f) = >>=-eq-ok (tokenize lib rd.tokenizer chunk) _ e in
        file_answer-Scanned rd seen chunk t r r.status refl sc p f

    pub is_continue-Scanned :
        (rd : Reader T) {seen : Bytes}
        → is_continue rd.status ≡ true
        → Scanned seen rd
        → ScannedAt continue seen rd
    is_continue-Scanned rd {seen} c sc =
        subst (λ s. ScannedAt s seen rd) (is_continue-eq rd.status c) sc

    -- The reader `rd'` has read some more bytes than `rd`.
    abbrev pub ReadsOn : Bytes → Reader T → Reader T → Type 0
    ReadsOn seen rd rd' =
        (bytes : Bytes) × Scanned (seen ++ bytes) rd' × (rd'.taken ≡ rd.taken ++ bytes)

    pub ReadsOn-refl : (seen : Bytes) (rd : Reader T) → Scanned seen rd → ReadsOn seen rd rd
    ReadsOn-refl seen rd sc = ([], rw append-nil sc, sym (append-nil rd.taken))

    pub ReadsOn-trans :
        (seen : Bytes) (rd rd' rd'' : Reader T) (on : ReadsOn seen rd rd')
        → ReadsOn (seen ++ on.0) rd' rd''
        → ReadsOn seen rd rd''
    ReadsOn-trans seen rd rd' rd'' (xs, _, p) (ys, sc, q) =
        (xs ++ ys, rw (← append_assoc seen xs ys) sc, q ∙ rw (p, append_assoc))

    stays :
        (seen : Bytes) (rd rd' : Reader T) → Scanned seen rd → ok rd ≡ ok rd' → ReadsOn seen rd rd'
    stays seen rd rd' sc e = subst (ReadsOn seen rd) (ok-injective e) (ReadsOn-refl seen rd sc)

    -- The read loop: what the reader holds of the output, it holds of the output with the new bytes.
    pub read_loop-ReadsOn :
        (answers : List ReadAnswer) (rd : Reader T) (seen : Bytes) {rd' : Reader T}
        → Scanned seen rd
        → read_loop lib rd answers ≡ ok rd'
        → ReadsOn seen rd rd'
    unfolding read_loop
    read_loop-ReadsOn [] rd seen {rd'} sc e = stays seen rd rd' sc (ground arith)
    read_loop-ReadsOn (got [] ∷ answers) rd seen {rd'} sc e = stays seen rd rd' sc e
    read_loop-ReadsOn (got (b ∷ bs) ∷ answers) rd seen {rd'} sc e =
        elim (Bool-cases (is_continue rd.status)) [
          | inl c ↦
              let run : (read_chunk lib rd (b ∷ bs) >>= λ x. read_loop lib x answers) ≡ ok rd' =
                ground arith in
              let (mid, p, q) = >>=-eq-ok (read_chunk lib rd (b ∷ bs)) _ run in
              let (sc', taken) =
                read_chunk-Scanned rd seen (b ∷ bs) (is_continue-Scanned rd c sc) p in
              ReadsOn-trans seen rd mid rd' (b ∷ bs, sc', taken)
                (read_loop-ReadsOn answers mid (seen ++ b ∷ bs) sc' q)
          | inr d ↦ let stop : ok rd ≡ ok rd' = ground arith in stays seen rd rd' sc stop
        ]
    read_loop-ReadsOn (read_again ∷ answers) rd seen {rd'} sc e = stays seen rd rd' sc e
    read_loop-ReadsOn (read_failed ∷ answers) rd seen {rd'} sc e =
        let stop : ok rd ≡ ok rd' = ground arith in stays seen rd rd' sc stop

    -- However the output of a solution is cut into chunks, rounds and events, behind the loop the
    -- reader holds of the whole output what one call of the tokenizer on it would give: all of it
    -- while the tokenizer waits, the token and the rest when it has accepted. This holds if it held
    -- before and the tokenizer keeps its contract.
    pub comm_loop-ReadsOn :
        (ends : Ends) (until : ℤ) (rounds : List Round) (c : Comm T) (seen : Bytes)
        {r : Comm T × ResultStatus}
        → Scanned seen c.reader
        → comm_loop lib ends until c rounds ≡ ok r
        → ReadsOn seen c.reader r.0.reader
    comm_loop-ReadsOn ends until rounds c seen sc =
        comm_loop_rule lib ends (λ d. ReadsOn seen c.reader d.reader) (λ d w e on _. on)
          (λ d rd answers on p.
            ReadsOn-trans seen c.reader d.reader rd on
              (read_loop-ReadsOn answers d.reader (seen ++ on.0) on.1 p))
          until rounds c (ReadsOn-refl seen c.reader sc)
