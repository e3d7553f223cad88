-- ===== src/Broker/Communicate/Reports.antt =====
-- The statuses that the loop of communicate returns, and what it has met then.
use deprecated_yandex_contes.Base.{
  true, false, List, [], ◌∷◌, none, some, Result-cases, ok, >>=-eq-ok, Bool-cases, ◌≡◌, ◌⊎◌, ap,
  subst, ◌∙◌, inl, inr, arith, ℤ, ltb_ℤ, ◌==◌,
}
use deprecated_yandex_contes.Tokenizer.{TokenizerLibrary}
use deprecated_yandex_contes.Broker.Types.{ResultStatus, ok_status, real_time_limit_exceeded}
use deprecated_yandex_contes.Broker.Communicate.{
  Comm, Reader, Ends, Round, Event, Poll, polled, poll_failed, is_continue, handle, wait, react,
  run_round, comm_loop, on_writable, read_loop,
}

-- One of the readings of the clock, from `now` on, is not before the limit.
abbrev pub Overdue : ℤ → ℤ → List Poll → Type 0
Overdue until now [] = ltb_ℤ now until ≡ false
Overdue until now (poll_failed ∷ polls) = ltb_ℤ now until ≡ false
Overdue until now (polled _ later ∷ polls) = (ltb_ℤ now until ≡ false) ⊎ Overdue until later polls

abbrev pub OverdueIn : ℤ → List Round → Type 0
OverdueIn until [] = ⊥
OverdueIn until (r ∷ rounds) = Overdue until r.now r.polls ⊎ OverdueIn until rounds

-- One of the events is at the read end, which has nothing to read.
abbrev pub Closes : Ends → List Event → Type 0
Closes ends [] = ⊥
Closes ends (e ∷ es) = ((e.fd ≡ ends.out_fd) × (e.epollin ≡ false)) ⊎ Closes ends es

abbrev pub ClosesAt : Ends → List Poll → Type 0
ClosesAt ends [] = ⊥
ClosesAt ends (poll_failed ∷ polls) = ClosesAt ends polls
ClosesAt ends (polled es _ ∷ polls) = Closes ends es ⊎ ClosesAt ends polls

abbrev pub ClosesIn : Ends → List Round → Type 0
ClosesIn ends [] = ⊥
ClosesIn ends (r ∷ rounds) = ClosesAt ends r.polls ⊎ ClosesIn ends rounds

-- A wait without an event has reached the limit.
wait-Overdue :
    (until now : ℤ) (polls : List Poll) → wait until now polls ≡ ok [] → Overdue until now polls
unfolding wait
wait-Overdue until now [] e = ground arith
wait-Overdue until now (poll_failed ∷ polls) e = ground arith
wait-Overdue until now (polled (_ ∷ _) later ∷ polls) e = inl (ground arith)
wait-Overdue until now (polled [] later ∷ polls) e = elim (Bool-cases (ltb_ℤ now until)) [
  | inl soon ↦
      let rest : wait until later polls ≡ ok [] = ground arith in
      inr (wait-Overdue until later polls rest)
  | inr over ↦ inl over
]

-- The events of a wait are those of one of the calls.
wait-Closes :
    (ends : Ends) (until now : ℤ) (polls : List Poll) {es : List Event}
    → wait until now polls ≡ ok es
    → Closes ends es
    → ClosesAt ends polls
unfolding wait
wait-Closes ends until now [] {es} e closed = elim (Bool-cases (ltb_ℤ now until)) [
  | inl soon ↦ absurd (ground arith)
  | inr over ↦
      let none_came : es ≡ [] = ground arith in absurd (subst (Closes ends) none_came closed)
]
wait-Closes ends until now (poll_failed ∷ polls) {es} e closed =
    elim (Bool-cases (ltb_ℤ now until)) [
      | inl soon ↦ absurd (ground arith)
      | inr over ↦
          let none_came : es ≡ [] = ground arith in absurd (subst (Closes ends) none_came closed)
    ]
wait-Closes ends until now (polled (v ∷ vs) later ∷ polls) {es} e closed =
    elim (Bool-cases (ltb_ℤ now until)) [
      | inl soon ↦ let these : es ≡ v ∷ vs = ground arith in inl (subst (Closes ends) these closed)
      | inr over ↦
          let none_came : es ≡ [] = ground arith in absurd (subst (Closes ends) none_came closed)
    ]
wait-Closes ends until now (polled [] later ∷ polls) {es} e closed =
    elim (Bool-cases (ltb_ℤ now until)) [
      | inl soon ↦
          let rest : wait until later polls ≡ ok es = ground arith in
          inr (wait-Closes ends until later polls rest closed)
      | inr over ↦
          let none_came : es ≡ [] = ground arith in absurd (subst (Closes ends) none_came closed)
    ]

module _ {T : Type 0} (lib : TokenizerLibrary T) (ends : Ends) where
  -- The loop over the events is left only at the end of the output.
  handle-Closes :
      (es : List Event) (c : Comm T) {c' : Comm T}
      → handle lib ends c es ≡ ok (c', true)
      → Closes ends es
  unfolding handle
  handle-Closes [] c h = cc
  handle-Closes (e ∷ es) c {c'} h = elim (Bool-cases (e.fd == ends.in_fd)) [
    | inl at_in ↦ elim (Result-cases (on_writable (is_continue c.reader.status) c.writer e)) [
      | inl (d, p) ↦ absurd (ground arith)
      | inr (w, p) ↦
          let rest : handle lib ends (record c { writer = w }) es ≡ ok (c', true) = ground arith in
          inr (handle-Closes es (record c { writer = w }) rest)
    ]
    | inr not_in ↦ elim (Bool-cases (e.fd == ends.out_fd)) [
      | inl at_out ↦ elim (Bool-cases e.epollin) [
        | inl readable ↦ elim (Result-cases (read_loop lib c.reader e.reads)) [
          | inl (d, p) ↦ absurd (ground arith)
          | inr (rd, p) ↦
              let rest : handle lib ends (record c { reader = rd }) es ≡ ok (c', true) =
                ground arith in
              inr (handle-Closes es (record c { reader = rd }) rest)
        ]
        | inr over ↦ inl (ground arith, over)
      ]
      | inr other ↦
          let rest : handle lib ends c es ≡ ok (c', true) = ground arith in
          inr (handle-Closes es c rest)
    ]
  ]

  -- What the loop has met when it returns with the reader `rd` and the status `s`.
  abbrev pub Reports : ℤ → List Round → Reader T → ResultStatus → Type 0
  Reports until rounds rd s =
      ((s ≡ ok_status) × (is_continue rd.status ≡ true → ClosesIn ends rounds))
      ⊎ ((s ≡ real_time_limit_exceeded) × OverdueIn until rounds)

  Reports-later :
      (until : ℤ) (r : Round) (rounds : List Round) (rd : Reader T) (s : ResultStatus)
      → Reports until rounds rd s
      → Reports until (r ∷ rounds) rd s
  Reports-later until r rounds rd s (inl (fine, closed)) = inl (fine, λ go. inr (closed go))
  Reports-later until r rounds rd s (inr (late, over)) = inr (late, inr over)

  react-Reports :
      (until : ℤ) (r : Round) (rounds : List Round) (es : List Event) (c : Comm T) {c' : Comm T}
      {s : ResultStatus}
      → wait until r.now r.polls ≡ ok es
      → react lib ends c es ≡ ok (c', some s)
      → Reports until (r ∷ rounds) c'.reader s
  unfolding react
  react-Reports until r rounds [] c waited e =
      inr (ground arith, inl (wait-Overdue until r.now r.polls waited))
  react-Reports until r rounds (ev ∷ es) c {c'} {s} waited e =
      let ((d, returned), h, f) = >>=-eq-ok (handle lib ends c (ev ∷ es)) _ e in
      elim (Bool-cases returned) [
        | inl y ↦
            let left = h ∙ ap (λ x. ok (d, x)) y in
            let closed = handle-Closes (ev ∷ es) c left in
            inl (ground arith, λ _. inl (wait-Closes ends until r.now r.polls waited closed))
        | inr n ↦ absurd (ground arith)
      ]

  pub comm_loop-Reports :
      (until : ℤ) (rounds : List Round) (c c' : Comm T) (s : ResultStatus)
      → comm_loop lib ends until c rounds ≡ ok (c', s)
      → Reports until rounds c'.reader s
  unfolding comm_loop run_round
  comm_loop-Reports until [] c c' s h = elim (Bool-cases (is_continue c.reader.status)) [
    | inl go ↦ absurd (ground arith)
    | inr stop ↦
        let same : c ≡ c' = ground arith in
        let stopped = subst (λ (x : Comm T). is_continue x.reader.status ≡ false) same stop in
        inl (ground arith, λ go. absurd (ground (arith, go, stopped)))
  ]
  comm_loop-Reports until (r ∷ rounds) c c' s h = elim (Bool-cases (is_continue c.reader.status)) [
    | inl go ↦ elim (Result-cases (run_round lib ends until c r)) [
      | inl (e, p) ↦ absurd (ground arith)
      | inr ((d, some s'), p) ↦
          let (es, waited, q) = >>=-eq-ok (wait until r.now r.polls) _ p in
          let same : s' ≡ s = ground arith in
          let same' : d ≡ c' = ground arith in
          subst (λ (x : Comm T). Reports until (r ∷ rounds) x.reader s) same'
            (subst (Reports until (r ∷ rounds) d.reader) same
              (react-Reports until r rounds es c waited q))
      | inr ((d, none), p) ↦
          let rest : comm_loop lib ends until d rounds ≡ ok (c', s) = ground arith in
          Reports-later until r rounds c'.reader s (comm_loop-Reports until rounds d c' s rest)
    ]
    | inr stop ↦
        let same : c ≡ c' = ground arith in
        let stopped = subst (λ (x : Comm T). is_continue x.reader.status ≡ false) same stop in
        inl (ground arith, λ go. absurd (ground (arith, go, stopped)))
  ]
