-- ===== src/Broker/Communicate/Balance.antt =====
-- The reading side keeps the output of a solution, whatever its tokenizer is: what it reads is in the
-- result and the buffer behind it, unless the tokenizer fails.
use deprecated_yandex_contes.Base.{
  List, [], ◌∷◌, ◌++◌, Bytes, take, drop, take-append-drop, ok, ◌>>=◌, >>=-eq-ok, ok-injective,
  Bool-cases, ℤ, ◌≡◌, sym, ap, subst, ◌∙◌, inl, inr, arith, append_assoc,
}
use deprecated_yandex_contes.Tokenizer.{
  Status, fail, continue, accepted, TokenizerResult, TokenizerLibrary, tokenize,
}
use deprecated_yandex_contes.Broker.Types.{ResultStatus}
use deprecated_yandex_contes.Broker.Communicate.Rule.{comm_loop_rule}
use deprecated_yandex_contes.Broker.Communicate.Token.{is_continue-eq}
use deprecated_yandex_contes.Broker.Communicate.{
  Ends, Comm, Round, comm_loop, ReadAnswer, got, read_again, read_failed, is_continue, Reader,
  unwatch, file_answer, read_chunk, read_loop,
}

-- Of the output `seen`, the bytes `paid` are gone; the others stand in the result and the buffer. A
-- tokenizer that waits has had all of them, and one that failed leaves some of them out.
abbrev pub BalancedAt : Status → Bytes → Bytes → Bytes → Bytes → Type 0
BalancedAt continue paid seen result outbuf = (outbuf ≡ []) × (seen ≡ paid ++ result)
BalancedAt accepted paid seen result outbuf = seen ≡ paid ++ (result ++ outbuf)
BalancedAt fail paid seen result outbuf = Unit

module _ {T : Type 0} (paid before : Bytes) where
  abbrev pub Balanced : Reader T → Type 0
  Balanced rd = BalancedAt rd.status paid (before ++ rd.taken) rd.result rd.outbuf

  module _ (lib : TokenizerLibrary T) where
    file_answer-Balanced :
        (rd : Reader T) (chunk : Bytes) (t : T) (r : TokenizerResult) (s : Status) {rd' : Reader T}
        → BalancedAt continue paid (before ++ rd.taken) rd.result rd.outbuf
        → file_answer lib
            (record rd { tokenizer = t; status = s; taken = rd.taken ++ chunk })
            chunk
            r
            s
          ≡ ok rd'
        → Balanced rd'
    unfolding file_answer
    file_answer-Balanced rd chunk t r fail b e =
        let (_, _, f) = >>=-eq-ok (unwatch rd.watched) _ e in subst Balanced (ok-injective f) tt
    file_answer-Balanced rd chunk t r continue (empty, b) e = subst Balanced (ok-injective e) (
      empty,
      sym (append_assoc before rd.taken chunk)
          ∙ ap (λ x. x ++ chunk) b
          ∙ append_assoc paid rd.result chunk,
    )
    file_answer-Balanced rd chunk t r accepted (empty, b) e = subst Balanced (ok-injective e) (
        sym (append_assoc before rd.taken chunk)
        ∙ ap (λ x. x ++ chunk) b
        ∙ append_assoc paid rd.result chunk
        ∙ ap (λ x. paid ++ (rd.result ++ x)) (sym (take-append-drop r.accepted chunk))
        ∙ ap (◌++◌ paid)
            (sym (append_assoc rd.result (take r.accepted chunk) (drop r.accepted chunk)))
        ∙ ap (λ x. paid ++ ((rd.result ++ take r.accepted chunk) ++ (x ++ drop r.accepted chunk)))
            (sym empty))

    read_loop-Balanced :
        (answers : List ReadAnswer) (rd : Reader T) {rd' : Reader T}
        → Balanced rd
        → read_loop lib rd answers ≡ ok rd'
        → Balanced rd'
    unfolding read_loop read_chunk
    read_loop-Balanced [] rd {rd'} b e = let same : rd ≡ rd' = ground arith in subst Balanced same b
    read_loop-Balanced (got [] ∷ answers) rd b e = subst Balanced (ok-injective e) b
    read_loop-Balanced (got (o ∷ os) ∷ answers) rd {rd'} b e =
        elim (Bool-cases (is_continue rd.status)) [
          | inl go ↦
              let run : (read_chunk lib rd (o ∷ os) >>= λ next. read_loop lib next answers)
                  ≡ ok rd' =
                ground arith in
              let (next, p, f) = >>=-eq-ok (read_chunk lib rd (o ∷ os)) _ run in
              let ((t, r), _, g) = >>=-eq-ok (tokenize lib rd.tokenizer (o ∷ os)) _ p in
              let waits =
                subst (λ s. BalancedAt s paid (before ++ rd.taken) rd.result rd.outbuf)
                  (is_continue-eq rd.status go) b in
              read_loop-Balanced answers next
                (file_answer-Balanced rd (o ∷ os) t r r.status waits g) f
          | inr stop ↦
              let done : ok rd ≡ ok rd' = ground arith in subst Balanced (ok-injective done) b
        ]
    read_loop-Balanced (read_again ∷ answers) rd b e = subst Balanced (ok-injective e) b
    read_loop-Balanced (read_failed ∷ answers) rd {rd'} b e =
        let done : ok rd ≡ ok rd' = ground arith in subst Balanced (ok-injective done) b

    pub comm_loop-Balanced :
        (ends : Ends) (until : ℤ) (rounds : List Round) (c : Comm T) {r : Comm T × ResultStatus}
        → Balanced c.reader
        → comm_loop lib ends until c rounds ≡ ok r
        → Balanced r.0.reader
    comm_loop-Balanced ends until rounds c =
        comm_loop_rule lib ends (λ d. Balanced d.reader) (λ d w e p _. p)
          (λ d rd answers p e. read_loop-Balanced answers d.reader p e) until rounds c
