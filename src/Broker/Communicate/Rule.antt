-- ===== src/Broker/Communicate/Rule.antt =====
-- The invariant rule of the loop: what every write loop and every read loop keeps, the whole loop
-- keeps.
use deprecated_yandex_contes.Base.{
  ◌==◌, Bool, true, List, [], ◌∷◌, ok, ◌>>=◌, >>=-eq-ok, ok-injective, Bool-cases, Result-cases,
  Option, none, some, ℤ, ◌≡◌, subst, inl, inr, arith,
}
use deprecated_yandex_contes.Tokenizer.{TokenizerLibrary}
use deprecated_yandex_contes.Broker.Types.{ResultStatus, ok_status}
use deprecated_yandex_contes.Broker.Communicate.{
  Event, Ends, Comm, Round, handle, wait, react, run_round, comm_loop, on_writable, ReadAnswer,
  is_continue, Reader, Writer, read_loop,
}

module _ {T : Type 0} (lib : TokenizerLibrary T) (ends : Ends) (P : Comm T → Type 0) where
  abbrev KeptByWriter : Type 0
  KeptByWriter =
      (c : Comm T) (w : Writer) (e : Event)
      → P c
      → on_writable (is_continue c.reader.status) c.writer e ≡ ok w
      → P (record c { writer = w })

  abbrev KeptByReader : Type 0
  KeptByReader =
      (c : Comm T) (rd : Reader T) (answers : List ReadAnswer)
      → P c
      → read_loop lib c.reader answers ≡ ok rd
      → P (record c { reader = rd })

  module _ (writer : KeptByWriter) (reader : KeptByReader) where
    handle_rule :
        (es : List Event) (c : Comm T) {r : Comm T × Bool}
        → P c
        → handle lib ends c es ≡ ok r
        → P r.0
    unfolding handle
    handle_rule [] c {r} p h = subst (λ (x : Comm T × Bool). P x.0) (ok-injective h) p
    handle_rule (e ∷ es) c {r} p h = elim (Bool-cases (e.fd == ends.in_fd)) [
      | inl at_in ↦
          let run : (on_writable (is_continue c.reader.status) c.writer e >>= λ w.
          handle lib ends (record c { writer = w }) es)
              ≡ ok r =
            ground arith in
          let (w, q, rest) =
            >>=-eq-ok (on_writable (is_continue c.reader.status) c.writer e) _ run in
          handle_rule es (record c { writer = w }) (writer c w e p q) rest
      | inr not_in ↦ elim (Bool-cases (e.fd == ends.out_fd)) [
        | inl at_out ↦ elim (Bool-cases e.epollin) [
          | inl readable ↦
              let run : (read_loop lib c.reader e.reads >>= λ rd.
              handle lib ends (record c { reader = rd }) es)
                  ≡ ok r =
                ground arith in
              let (rd, q, rest) = >>=-eq-ok (read_loop lib c.reader e.reads) _ run in
              handle_rule es (record c { reader = rd }) (reader c rd e.reads p q) rest
          | inr over ↦
              let done : ok (c, true) ≡ ok r = ground arith in
              subst (λ (x : Comm T × Bool). P x.0) (ok-injective done) p
        ]
        | inr other ↦
            let rest : handle lib ends c es ≡ ok r = ground arith in handle_rule es c p rest
      ]
    ]

    react_rule :
        (es : List Event) (c : Comm T) {r : Comm T × Option ResultStatus}
        → P c
        → react lib ends c es ≡ ok r
        → P r.0
    unfolding react
    react_rule [] c p q = subst (λ (x : Comm T × Option ResultStatus). P x.0) (ok-injective q) p
    react_rule (e ∷ es) c p q =
        let ((c', returned), s, t) = >>=-eq-ok (handle lib ends c (e ∷ es)) _ q in
        subst (λ (x : Comm T × Option ResultStatus). P x.0) (ok-injective t)
          (handle_rule (e ∷ es) c p s)

    run_round_rule :
        (until : ℤ) (round : Round) (c : Comm T) {r : Comm T × Option ResultStatus}
        → P c
        → run_round lib ends until c round ≡ ok r
        → P r.0
    unfolding run_round
    run_round_rule until round c p h =
        let (es, _, q) = >>=-eq-ok (wait until round.now round.polls) _ h in react_rule es c p q

    pub comm_loop_rule :
        (until : ℤ) (rounds : List Round) (c : Comm T) {r : Comm T × ResultStatus}
        → P c
        → comm_loop lib ends until c rounds ≡ ok r
        → P r.0
    unfolding comm_loop
    comm_loop_rule until [] c {r} p h =
        let done : ok (c, ok_status) ≡ ok r = ground arith in
        subst (λ (x : Comm T × ResultStatus). P x.0) (ok-injective done) p
    comm_loop_rule until (round ∷ rounds) c {r} p h =
        elim (Bool-cases (is_continue c.reader.status)) [
          | inl go ↦ elim (Result-cases (run_round lib ends until c round)) [
            | inl (e, q) ↦ absurd (ground arith)
            | inr ((c', some s), q) ↦
                let done : ok (c', s) ≡ ok r = ground arith in
                subst (λ (x : Comm T × ResultStatus). P x.0) (ok-injective done)
                  (run_round_rule until round c p q)
            | inr ((c', none), q) ↦
                let rest : comm_loop lib ends until c' rounds ≡ ok r = ground arith in
                comm_loop_rule until rounds c' (run_round_rule until round c p q) rest
          ]
          | inr stop ↦
              let done : ok (c, ok_status) ≡ ok r = ground arith in
              subst (λ (x : Comm T × ResultStatus). P x.0) (ok-injective done) p
        ]
