-- ===== src/Broker/Communicate/Deadline.antt =====
-- The loop ends when the clock passes the limit, and what it returns then.
use deprecated_yandex_contes.Base.{
  Bool, true, false, List, [], ◌∷◌, Bytes, none, some, ok, err, ◌>>=◌, >>=-eq-ok, >>=-ne-err, ◌==◌,
  Bool-cases, Result-cases, ℤ, ltb_ℤ, All, subst, sym, pending, ◌≡◌, ◌≢◌, ◌⊎◌, ◌∙◌, inl, inr, arith,
}
use deprecated_yandex_contes.Tokenizer.{
  Status, fail, continue, accepted, TokenizerResult, TokenizerLibrary, tokenize,
}
use deprecated_yandex_contes.Broker.Types.{real_time_limit_exceeded}
use deprecated_yandex_contes.Broker.Communicate.{
  WriteAnswer, wrote, write_again, write_failed, Writer, write_loop, unwatch_writer, written,
  write_out, on_writable, ReadAnswer, got, read_again, read_failed, Reader, file_answer, read_chunk,
  read_loop, is_continue, Poll, polled, poll_failed, wait, handle, react, run_round, Event, Ends,
  Comm, Round, comm_loop,
}

-- The calls of `write` go on until one of them blocks or fails.
abbrev pub WritesEnd : List WriteAnswer → Type 0
WritesEnd [] = ⊥
WritesEnd (wrote _ ∷ answers) = WritesEnd answers
WritesEnd (write_again ∷ answers) = Unit
WritesEnd (write_failed ∷ answers) = Unit

-- The calls of `read` go on until one of them blocks, fails or finds the end of the output.
abbrev pub ReadsEnd : List ReadAnswer → Type 0
ReadsEnd [] = ⊥
ReadsEnd (got [] ∷ answers) = Unit
ReadsEnd (got (_ ∷ _) ∷ answers) = ReadsEnd answers
ReadsEnd (read_again ∷ answers) = Unit
ReadsEnd (read_failed ∷ answers) = Unit

-- The calls that the handler of an event makes.
abbrev pub EventEnds : Ends → Event → Type 0
EventEnds ends e =
    ((e.fd == ends.in_fd) ≡ true → WritesEnd e.writes)
    × ((e.fd == ends.out_fd) ≡ true → ReadsEnd e.reads)

write_loop-ne-pending :
    (answers : List WriteAnswer) (w : Writer)
    → WritesEnd answers
    → write_loop w answers ≢ err pending
unfolding write_loop
write_loop-ne-pending [] w ends = absurd ends
write_loop-ne-pending (wrote n ∷ answers) w ends = write_loop-ne-pending answers _ ends
write_loop-ne-pending (write_again ∷ answers) w ends = λ p. cc
write_loop-ne-pending (write_failed ∷ answers) w ends = ground arith

unwatch_writer-ne-pending : (w : Writer) → unwatch_writer w ≢ err pending
unfolding unwatch_writer
unwatch_writer-ne-pending w = ground arith

written-ne-pending : (w : Writer) → written w ≢ err pending
unfolding written
written-ne-pending w = ground (arith, unwatch_writer-ne-pending w)

write_out-ne-pending :
    (waits : Bool) (w : Writer) (e : Event) → WritesEnd e.writes → write_out waits w e ≢ err pending
unfolding write_out
write_out-ne-pending false w e ends = λ p. cc
write_out-ne-pending true w e ends =
    >>=-ne-err pending (write_loop w e.writes) _ (write_loop-ne-pending e.writes w ends)
      written-ne-pending

on_writable-ne-pending :
    (waits : Bool) (w : Writer) (e : Event)
    → WritesEnd e.writes
    → on_writable waits w e ≢ err pending
unfolding on_writable
on_writable-ne-pending waits w e ends =
    ground (arith, unwatch_writer-ne-pending w, write_out-ne-pending waits w e ends)

-- A call of the library returns.
abbrev pub Returns : {T : Type 0} → TokenizerLibrary T → Type 0
Returns {T} lib = (t : T) (chunk : Bytes) → tokenize lib t chunk ≢ err pending

module _ {T : Type 0} (lib : TokenizerLibrary T) (returns : Returns lib) where
  file_answer-ne-pending :
      (s : Status) (rd : Reader T) (chunk : Bytes) (r : TokenizerResult)
      → file_answer lib rd chunk r s ≢ err pending
  unfolding file_answer
  file_answer-ne-pending fail rd chunk r = ground arith
  file_answer-ne-pending continue rd chunk r = λ p. cc
  file_answer-ne-pending accepted rd chunk r = λ p. cc

  read_chunk-ne-pending : (rd : Reader T) (chunk : Bytes) → read_chunk lib rd chunk ≢ err pending
  unfolding read_chunk
  read_chunk-ne-pending rd chunk =
      >>=-ne-err pending (tokenize lib rd.tokenizer chunk) _ (returns rd.tokenizer chunk)
        λ a. file_answer-ne-pending a.1.status _ chunk a.1

  read_loop-ne-pending :
      (answers : List ReadAnswer) (rd : Reader T)
      → ReadsEnd answers
      → read_loop lib rd answers ≢ err pending
  unfolding read_loop
  read_loop-ne-pending [] rd ends = absurd ends
  read_loop-ne-pending (got [] ∷ answers) rd ends = λ p. cc
  read_loop-ne-pending (got (b ∷ bs) ∷ answers) rd ends =
      let chain : (read_chunk lib rd (b ∷ bs) >>= λ x. read_loop lib x answers) ≢ err pending =
        >>=-ne-err pending (read_chunk lib rd (b ∷ bs)) _ (read_chunk-ne-pending rd (b ∷ bs))
          λ x. read_loop-ne-pending answers x ends in
      ground arith
  read_loop-ne-pending (read_again ∷ answers) rd ends = λ p. cc
  read_loop-ne-pending (read_failed ∷ answers) rd ends = ground arith

  module _ (ends : Ends) where
    handle-ne-pending :
        (es : List Event) (c : Comm T)
        → All (EventEnds ends) es
        → handle lib ends c es ≢ err pending
    unfolding handle
    handle-ne-pending [] c tt = λ p. cc
    handle-ne-pending (e ∷ es) c ((writes_end, reads_end), all) =
        elim (Bool-cases (e.fd == ends.in_fd)) [
          | inl at_in ↦
              rw (handle, at_in)
                (>>=-ne-err pending (on_writable (is_continue c.reader.status) c.writer e) _
                  (on_writable-ne-pending _ c.writer e (writes_end at_in))
                  λ w. handle-ne-pending es _ all)
          | inr not_in ↦ elim (Bool-cases (e.fd == ends.out_fd)) [
            | inl at_out ↦ elim (Bool-cases e.epollin) [
              | inl readable ↦
                  rw (handle, not_in, at_out, readable)
                    (>>=-ne-err pending (read_loop lib c.reader e.reads) _
                      (read_loop-ne-pending e.reads c.reader (reads_end at_out))
                      λ rd. handle-ne-pending es _ all)
              | inr over ↦ ground arith
            ]
            | inr other ↦ rw (handle, not_in, other) (handle-ne-pending es c all)
          ]
        ]

-- The calls of `epoll_wait` go on until one of them brings events, behind which the calls of `write`
-- and `read` end, or fails, or the clock behind one has passed the limit.
abbrev pub Covers : Ends → ℤ → ℤ → List Poll → Type 0
Covers ends until now [] = ltb_ℤ now until ≡ false
Covers ends until now (poll_failed ∷ polls) = Unit
Covers ends until now (polled (e ∷ es) _ ∷ polls) = All (EventEnds ends) (e ∷ es)
Covers ends until now (polled [] later ∷ polls) =
    (ltb_ℤ now until ≡ false) ⊎ Covers ends until later polls

-- The rounds go on until the clock at the head of one has passed the limit.
abbrev pub Lasts : Ends → ℤ → List Round → Type 0
Lasts ends until [] = ⊥
Lasts ends until (r ∷ rounds) =
    (ltb_ℤ r.now until ≡ false) ⊎ (Covers ends until r.now r.polls × Lasts ends until rounds)

wait-ne-pending :
    (ends : Ends) (until now : ℤ) (polls : List Poll)
    → Covers ends until now polls
    → wait until now polls ≢ err pending
unfolding wait
wait-ne-pending ends until now [] h = ground arith
wait-ne-pending ends until now (poll_failed ∷ polls) h = ground arith
wait-ne-pending ends until now (polled (_ ∷ _) _ ∷ polls) h = ground arith
wait-ne-pending ends until now (polled [] later ∷ polls) (inl over) = ground arith
wait-ne-pending ends until now (polled [] later ∷ polls) (inr h) =
    ground (arith, wait-ne-pending ends until later polls h)

-- The calls behind the events of a wait end.
wait-EventEnds :
    (ends : Ends) (until now : ℤ) (polls : List Poll) {es : List Event}
    → Covers ends until now polls
    → wait until now polls ≡ ok es
    → All (EventEnds ends) es
unfolding wait
wait-EventEnds ends until now [] {es} h e =
    let none_came : es ≡ [] = ground arith in subst (All (EventEnds ends)) (sym none_came) tt
wait-EventEnds ends until now (poll_failed ∷ polls) {es} h e =
    let none_came : es ≡ [] = ground arith in subst (All (EventEnds ends)) (sym none_came) tt
wait-EventEnds ends until now (polled (v ∷ vs) later ∷ polls) {es} h e =
    elim (Bool-cases (ltb_ℤ now until)) [
      | inl soon ↦
          let these : es ≡ v ∷ vs = ground arith in subst (All (EventEnds ends)) (sym these) h
      | inr over ↦
          let none_came : es ≡ [] = ground arith in subst (All (EventEnds ends)) (sym none_came) tt
    ]
wait-EventEnds ends until now (polled [] later ∷ polls) {es} (inl over) e =
    let none_came : es ≡ [] = ground arith in subst (All (EventEnds ends)) (sym none_came) tt
wait-EventEnds ends until now (polled [] later ∷ polls) {es} (inr h) e =
    elim (Bool-cases (ltb_ℤ now until)) [
      | inl soon ↦
          let rest : wait until later polls ≡ ok es = ground arith in
          wait-EventEnds ends until later polls h rest
      | inr over ↦
          let none_came : es ≡ [] = ground arith in subst (All (EventEnds ends)) (sym none_came) tt
    ]

-- Past the limit there is no wait.
wait_over :
    (until now : ℤ) (polls : List Poll) → ltb_ℤ now until ≡ false → wait until now polls ≡ ok []
unfolding wait
wait_over until now [] h = ground arith
wait_over until now (poll_failed ∷ polls) h = ground arith
wait_over until now (polled (_ ∷ _) _ ∷ polls) h = ground arith
wait_over until now (polled [] later ∷ polls) h = ground arith

module _ {T : Type 0} (lib : TokenizerLibrary T) (ends : Ends) where
  -- A round that begins past the limit returns without reading or writing.
  pub run_round_over :
      (until : ℤ) (c : Comm T) (r : Round)
      → ltb_ℤ r.now until ≡ false
      → run_round lib ends until c r ≡ ok (c, some real_time_limit_exceeded)
  unfolding run_round react
  run_round_over until c r h = rw (wait_over until r.now r.polls h)

  module _ (returns : Returns lib) where
    react-ne-pending :
        (es : List Event) (c : Comm T) → All (EventEnds ends) es → react lib ends c es ≢ err pending
    unfolding react
    react-ne-pending [] c all = λ p. cc
    react-ne-pending (e ∷ es) c all =
        >>=-ne-err pending (handle lib ends c (e ∷ es)) _
          (handle-ne-pending lib returns ends (e ∷ es) c all) λ d p. cc

    run_round-ne-pending :
        (until : ℤ) (c : Comm T) (r : Round)
        → Covers ends until r.now r.polls
        → run_round lib ends until c r ≢ err pending
    unfolding run_round
    run_round-ne-pending until c r h = elim (Result-cases (wait until r.now r.polls)) [
      | inl (e, p) ↦ ground (arith, wait-ne-pending ends until r.now r.polls h)
      | inr (es, p) ↦ rw p (react-ne-pending es c (wait-EventEnds ends until r.now r.polls h p))
    ]

    -- The loop of communicate returns or throws, if the rounds it meets go on until the clock has
    -- passed the limit, the calls of write and of read for an event go on until one of them blocks,
    -- fails or finds the end of the output, and the tokenizer returns.
    pub comm_loop-ne-pending :
        (until : ℤ) (rounds : List Round) (c : Comm T)
        → Lasts ends until rounds
        → comm_loop lib ends until c rounds ≢ err pending
    unfolding comm_loop
    comm_loop-ne-pending until [] c h = elim h [ ]
    comm_loop-ne-pending until (r ∷ rounds) c (inl over) =
        ground (arith, run_round_over until c r over)
    comm_loop-ne-pending until (r ∷ rounds) c (inr (covers, lasts)) =
        elim (Result-cases (run_round lib ends until c r)) [
          | inl (e, p) ↦ ground (arith, run_round-ne-pending until c r covers)
          | inr ((c', some s), p) ↦ ground arith
          | inr ((c', none), p) ↦ ground (arith, comm_loop-ne-pending until rounds c' lasts)
        ]

  module _ (until : ℤ) where
    run_round-late :
        (c c' : Comm T) (r : Round)
        → is_continue c.reader.status ≡ true
        → run_round lib ends until c r ≡ ok (c', some real_time_limit_exceeded)
        → is_continue c'.reader.status ≡ true
    unfolding run_round react
    run_round-late c c' r go h =
        let (es, _, q) = >>=-eq-ok (wait until r.now r.polls) _ h in late es q
      where
        late :
            (es : List Event)
            → react lib ends c es ≡ ok (c', some real_time_limit_exceeded)
            → is_continue c'.reader.status ≡ true
        late [] q = ground arith
        late (e ∷ es) q =
            let ((d, returned), p, f) = >>=-eq-ok (handle lib ends c (e ∷ es)) _ q in ground arith

    -- The loop reports the real time limit only while the tokenizer still waits for more output.
    pub comm_loop-late :
        (rounds : List Round) (c c' : Comm T)
        → comm_loop lib ends until c rounds ≡ ok (c', real_time_limit_exceeded)
        → is_continue c'.reader.status ≡ true
    unfolding comm_loop
    comm_loop-late [] c c' h = absurd (ground arith)
    comm_loop-late (r ∷ rounds) c c' h = elim (Bool-cases (is_continue c.reader.status)) [
      | inl go ↦ elim (Result-cases (run_round lib ends until c r)) [
        | inl (e, p) ↦ absurd (ground arith)
        | inr ((d, some s), p) ↦
            let same : d ≡ c' = ground arith in
            let verdict : s ≡ real_time_limit_exceeded = ground arith in
            run_round-late c c' r go (p ∙ rw (same, verdict))
        | inr ((d, none), p) ↦
            let rest : comm_loop lib ends until d rounds ≡ ok (c', real_time_limit_exceeded) =
              ground arith in
            comm_loop-late rounds d c' rest
      ]
      | inr stop ↦ absurd (ground arith)
    ]
