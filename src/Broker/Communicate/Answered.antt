-- ===== src/Broker/Communicate/Answered.antt =====
-- The loop of communicate ends with an answer of the tokenizer, if the output that it gets in time
-- has one.
use deprecated_yandex_contes.Base.{
  Result, ℕ, true, false, List, [], ◌∷◌, ◌++◌, Bytes, ok, append_assoc, append-nil, ℤ, ok-injective,
  ◌≡◌, ◌≢◌, ◌⊎◌, refl, sym, ap, subst, ◌∙◌, inl, inr,
}
use deprecated_yandex_contes.Tokenizer.{
  Status, fail, continue, accepted, TokenizerResult, TokenizerLibrary, tokenize,
}
use deprecated_yandex_contes.Tokenizer.Laws.{IsTokenizer}
use deprecated_yandex_contes.Broker.Types.{ok_status}
use deprecated_yandex_contes.Broker.Communicate.{
  Writer, on_writable, Ends, Comm, Round, Event, handle, comm_loop, ReadAnswer, got, read_again,
  read_failed, is_continue, Reader, file_answer, read_chunk, read_loop,
}
use deprecated_yandex_contes.Broker.Communicate.Token.{
  ScannedAt, Scanned, ReadsOn, file_answer-Scanned, whole, comm_loop-ReadsOn,
}
use deprecated_yandex_contes.Broker.Communicate.Events.{
  Chunks, Events, BringAll, read_loop_stopped, comm_loop_stopped, handle-write, handle-read,
  handle_stopped, run_round-handle,
}

clash : true ≡ false → ⊥
clash e = cc

module _ {T : Type 0} (lib : TokenizerLibrary T) (Ready : T → Type 0) (t₀ : T)
    (law : IsTokenizer lib Ready) where
  -- One call of the tokenizer on the output so far answers that it waits.
  abbrev pub Waits : Bytes → Type 0
  Waits seen =
      (t : T) × (n : ℕ) × (tokenize lib t₀ seen
        ≡ ok (t, record { status = continue; accepted = n }))

  -- The reader waits, watches the output, and holds all of it.
  abbrev pub Waiting : Bytes → Reader T → Type 0
  Waiting seen rd =
      (rd.status ≡ continue)
      × ScannedAt lib Ready t₀ continue seen rd
      × (rd.watched ≡ true)
      × Waits seen

  -- The tokenizer has answered, or it waits and all the bytes were read.
  abbrev Going : Bytes → Reader T → Type 0
  Going seen rd = (is_continue rd.status ≡ false) ⊎ Waiting seen rd

  file_answer-Going :
      (rd : Reader T) (seen chunk : Bytes) (t : T) (r : TokenizerResult) (s : Status)
      → r.status ≡ s
      → ScannedAt lib Ready t₀ continue seen rd
      → rd.watched ≡ true
      → tokenize lib rd.tokenizer chunk ≡ ok (t, r)
      → (rd' : Reader T) × (file_answer lib
            (record rd { tokenizer = t; status = s; taken = rd.taken ++ chunk })
            chunk
            r
            s
          ≡ ok rd')
        × Going (seen ++ chunk) rd'
  unfolding file_answer
  file_answer-Going rd seen chunk t r fail a sc w p = (
    record rd { tokenizer = t; status = fail; taken = rd.taken ++ chunk; watched = false },
    rw w refl,
    inl refl,
  )
  file_answer-Going rd seen chunk t r accepted a sc w p = (_, refl, inl refl)
  file_answer-Going rd seen chunk t r continue a sc w p = (
    _,
    refl,
    inr (
      refl,
      (file_answer-Scanned lib Ready t₀ law rd seen chunk t r continue a sc p refl).0,
      w,
      (t, _, whole lib Ready t₀ law rd seen chunk t r a sc p),
    ),
  )

  still :
      (seen bytes : Bytes) (rd : Reader T)
      → bytes ≡ []
      → Waiting seen rd
      → Waiting (seen ++ bytes) rd
  still seen bytes rd none_left on =
      subst (λ x. Waiting x rd) (sym (append-nil seen) ∙ ap (◌++◌ seen) (sym none_left)) on

  read_chunk-Going :
      (rd : Reader T) (seen chunk : Bytes)
      → Waiting seen rd
      → (rd' : Reader T) × (read_chunk lib rd chunk ≡ ok rd') × Going (seen ++ chunk) rd'
  unfolding read_chunk
  read_chunk-Going rd seen chunk (_, sc, w, _) =
      let ((t, r), p) = law.runs rd.tokenizer chunk sc.0 in
      let (rd', q, going) = file_answer-Going rd seen chunk t r r.status refl sc w p in
      (rd', rw (p, q) refl, going)

  read_loop-Going :
      (answers : List ReadAnswer) (rd : Reader T) (seen bytes : Bytes)
      → Waiting seen rd
      → Chunks answers bytes
      → (rd' : Reader T) × (read_loop lib rd answers ≡ ok rd') × Going (seen ++ bytes) rd'
  unfolding read_loop
  read_loop-Going [] rd seen bytes on apart = absurd apart
  read_loop-Going (got [] ∷ answers) rd seen bytes on none_left =
      (rd, refl, inr (still seen bytes rd none_left on))
  read_loop-Going (read_again ∷ answers) rd seen bytes on none_left =
      (rd, refl, inr (still seen bytes rd none_left on))
  read_loop-Going (read_failed ∷ answers) rd seen bytes on apart = absurd apart
  read_loop-Going (got (b ∷ bs) ∷ answers) rd seen bytes on (rest, split, chunks) =
      let (rd₁, p, going) = read_chunk-Going rd seen (b ∷ bs) on in
      let run : read_loop lib rd (got (b ∷ bs) ∷ answers) ≡ read_loop lib rd₁ answers =
        rw (read_loop, on.0, p) refl in
      elim going [
        | inl stop ↦ (rd₁, run ∙ read_loop_stopped lib answers rd₁ stop, inl stop)
        | inr on₁ ↦
            let (rd', q, later) = read_loop-Going answers rd₁ (seen ++ b ∷ bs) rest on₁ chunks in
            (
              rd',
              run ∙ q,
              subst (λ x. Going x rd')
                  (append_assoc seen (b ∷ bs) rest ∙ ap (◌++◌ seen) (sym split)) later,
            )
      ]

  module _ (ends : Ends) (until : ℤ) (apart : ends.in_fd ≢ ends.out_fd) where
    -- The events of a round: the tokenizer has answered, or all was read and written.
    handle-Waiting :
        (es : List Event) (c : Comm T) (seen bytes : Bytes) (w' : Writer)
        → Waiting seen c.reader
        → Events ends c.writer es bytes w'
        → (c' : Comm T) × (handle lib ends c es ≡ ok (c', false))
          × ((is_continue c'.reader.status ≡ false)
              ⊎ (Waiting (seen ++ bytes) c'.reader × (c'.writer ≡ w')))
    unfolding handle
    handle-Waiting [] c seen bytes w' on (none_left, same) =
        (c, refl, inr (still seen bytes c.reader none_left on, sym same))
    handle-Waiting (e ∷ es) c seen bytes w' on (inl (w₁, (at_in, _, _, wrote), rest)) =
        let (c', p, going) = handle-Waiting es (record c { writer = w₁ }) seen bytes w' on rest in
        (
          c',
          handle-write lib ends c e es w₁ at_in
                (ap (λ s. on_writable (is_continue s) c.writer e) on.0 ∙ wrote)
              ∙ p,
          going,
        )
    handle-Waiting (e ∷ es) c seen bytes w' on
          (inr (now, later, split, (at_out, readable, chunks), rest)) =
        let (rd, p, going) = read_loop-Going e.reads c.reader seen now on chunks in
        let c₁ = record c { reader = rd } in
        let run = handle-read lib ends c e es apart at_out readable p in
        elim going [
          | inl stop ↦
              (c₁, run ∙ handle_stopped lib ends apart es c₁ c.writer w' later stop rest, inl stop)
          | inr on₁ ↦
              let (c', q, after) = handle-Waiting es c₁ (seen ++ now) later w' on₁ rest in
              (
                c',
                run ∙ q,
                subst
                    (λ x.
                      (is_continue c'.reader.status ≡ false)
                      ⊎ (Waiting x c'.reader × (c'.writer ≡ w')))
                    (append_assoc seen now later ∙ ap (◌++◌ seen) (sym split)) after,
              )
        ]

    comm_loop_ends :
        (rounds : List Round) (c : Comm T) (seen bytes : Bytes) (t : T) (r : TokenizerResult)
        → Waiting seen c.reader
        → BringAll ends until c.writer rounds bytes
        → tokenize lib t₀ (seen ++ bytes) ≡ ok (t, r)
        → is_continue r.status ≡ false
        → (c' : Comm T) × (comm_loop lib ends until c rounds ≡ ok (c', ok_status))
          × (is_continue c'.reader.status ≡ false)
    unfolding comm_loop
    comm_loop_ends [] c seen bytes t r (_, _, _, (t', n, waits)) none_left whole_answer answer =
        let same : Path (Result (T × TokenizerResult))
            (ok (t', record { status = continue; accepted = n })) (ok (t, r)) =
          sym waits
          ∙ ap (tokenize lib t₀) (sym (append-nil seen) ∙ ap (◌++◌ seen) (sym none_left))
          ∙ whole_answer in
        let waiting : is_continue r.status ≡ true =
          ap (λ (x : T × TokenizerResult). is_continue x.1.status) (sym (ok-injective same)) in
        let bad : true ≡ false = sym waiting ∙ answer in elim (clash bad) [ ]
    comm_loop_ends (round ∷ rounds) c seen bytes t r on
          (now, later, w', split, (e, es, waited, events), rest) whole_answer answer =
        let (c₁, p, going) = handle-Waiting (e ∷ es) c seen now w' on events in
        let run : comm_loop lib ends until c (round ∷ rounds) ≡ comm_loop lib ends until c₁ rounds =
          rw (comm_loop, on.0, run_round-handle lib ends until c c₁ round e es waited p) refl in
        elim going [
          | inl stop ↦ (c₁, run ∙ comm_loop_stopped lib ends until c₁ rounds stop, stop)
          | inr (on₁, same) ↦
              let (c', q, done) =
                comm_loop_ends rounds c₁ (seen ++ now) later t r on₁
                  (subst (λ w. BringAll ends until w rounds later) (sym same) rest)
                  (ap (tokenize lib t₀) (append_assoc seen now later ∙ ap (◌++◌ seen) (sym split))
                    ∙ whole_answer)
                  answer in
              (c', run ∙ q, done)
        ]

    -- If each round brings, before the limit, events at the two pipes of the solution, where
    -- writing succeeds without an error or a hang-up and reading brings output, and a single call
    -- of the tokenizer on all of this output has an answer, then the loop of communicate returns ok
    -- with an answer of the tokenizer, and the reader holds of the output read what one call on it
    -- would give. At the start the tokenizer waits on the output so far, which the reader holds,
    -- and watches the pipe; the tokenizer keeps its contract, and the two descriptors differ.
    pub comm_loop-answered :
        (rounds : List Round) (c : Comm T) (seen bytes : Bytes) (t : T) (r : TokenizerResult)
        → Waiting seen c.reader
        → BringAll ends until c.writer rounds bytes
        → tokenize lib t₀ (seen ++ bytes) ≡ ok (t, r)
        → is_continue r.status ≡ false
        → (c' : Comm T) × (comm_loop lib ends until c rounds ≡ ok (c', ok_status))
          × (is_continue c'.reader.status ≡ false)
          × ReadsOn lib Ready t₀ law seen c.reader c'.reader
    comm_loop-answered rounds c seen bytes t r on brought whole_answer answer =
        let (c', p, stop) = comm_loop_ends rounds c seen bytes t r on brought whole_answer answer in
        let scanned : Scanned lib Ready t₀ seen c.reader =
          subst (λ s. ScannedAt lib Ready t₀ s seen c.reader) (sym on.0) on.1 in
        (c', p, stop, comm_loop-ReadsOn lib Ready t₀ law ends until rounds c seen scanned p)
