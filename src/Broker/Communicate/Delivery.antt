-- ===== src/Broker/Communicate/Delivery.antt =====
-- The writing side: what is sent to a solution reaches its input in order, once.
use deprecated_yandex_contes.Base.{
  ◌==◌, ◌||◌, min, Bool, true, false, List, [], ◌∷◌, ◌++◌, Bytes, length, take, drop,
  take-append-drop, ok, >>=-eq-ok, ok-injective, Bool-cases, ℤ, ◌≡◌, refl, sym, ap, ◌∙◌, inl, inr,
  arith, append_assoc,
}
use deprecated_yandex_contes.Tokenizer.{TokenizerLibrary}
use deprecated_yandex_contes.Broker.Types.{ResultStatus}
use deprecated_yandex_contes.Broker.Communicate.Rule.{comm_loop_rule}
use deprecated_yandex_contes.Broker.Communicate.{
  WriteAnswer, wrote, write_again, write_failed, Writer, write_loop, unwatch, unwatch_writer,
  written, write_out, on_writable, Event, Ends, Comm, Round, comm_loop, bufsiz,
}

-- The bytes that were to be delivered: those that have been, and the buffer.
abbrev pub stream_of : Writer → Bytes
stream_of w = w.delivered ++ w.inbuf

write_loop-stream_of :
    (answers : List WriteAnswer) (w : Writer) {w' : Writer}
    → write_loop w answers ≡ ok w'
    → stream_of w' ≡ stream_of w
unfolding write_loop
write_loop-stream_of [] w {w'} e = let same : w' ≡ w = ground arith in ap stream_of same
write_loop-stream_of (wrote n ∷ answers) w e =
    let size = min n (min bufsiz (length w.inbuf)) in
    write_loop-stream_of answers
      (record w { inbuf = drop size w.inbuf; delivered = w.delivered ++ take size w.inbuf }) e
    ∙ append_assoc w.delivered (take size w.inbuf) (drop size w.inbuf)
    ∙ ap (◌++◌ w.delivered) (take-append-drop size w.inbuf)
write_loop-stream_of (write_again ∷ answers) w e = ap stream_of (sym (ok-injective e))
write_loop-stream_of (write_failed ∷ answers) w {w'} e =
    let done : ok w ≡ ok w' = ground arith in ap stream_of (sym (ok-injective done))

unwatch_writer-stream_of :
    (w : Writer) {w' : Writer} → unwatch_writer w ≡ ok w' → stream_of w' ≡ stream_of w
unfolding unwatch_writer
unwatch_writer-stream_of w e =
    let (b, _, f) = >>=-eq-ok (unwatch w.watched) _ e in ap stream_of (sym (ok-injective f))

written-stream_of : (w : Writer) {w' : Writer} → written w ≡ ok w' → stream_of w' ≡ stream_of w
unfolding written
written-stream_of w {w'} e = elim (Bool-cases (length w.inbuf == 0)) [
  | inl empty ↦ let f : unwatch_writer w ≡ ok w' = ground arith in unwatch_writer-stream_of w f
  | inr more ↦ let done : ok w ≡ ok w' = ground arith in ap stream_of (sym (ok-injective done))
]

write_out-stream_of :
    (waits : Bool) (w : Writer) (e : Event) {w' : Writer}
    → write_out waits w e ≡ ok w'
    → stream_of w' ≡ stream_of w
unfolding write_out
write_out-stream_of false w e h = ap stream_of (sym (ok-injective h))
write_out-stream_of true w e h =
    let (mid, p, q) = >>=-eq-ok (write_loop w e.writes) _ h in
    written-stream_of mid q ∙ write_loop-stream_of e.writes w p

on_writable-stream_of :
    (waits : Bool) (w : Writer) (e : Event) {w' : Writer}
    → on_writable waits w e ≡ ok w'
    → stream_of w' ≡ stream_of w
unfolding on_writable
on_writable-stream_of waits w e {w'} h = elim (Bool-cases (e.epollerr || e.epollhup)) [
  | inl broken ↦ let f : unwatch_writer w ≡ ok w' = ground arith in unwatch_writer-stream_of w f
  | inr fine ↦ let f : write_out waits w e ≡ ok w' = ground arith in write_out-stream_of waits w e f
]

-- The bytes that the input of the solution has taken in the loop, and those still in the buffer
-- behind them, are together the bytes of before: none is lost, repeated or reordered.
pub comm_loop-stream_of :
    {T : Type 0} (lib : TokenizerLibrary T) (ends : Ends) (until : ℤ) (rounds : List Round)
    (c : Comm T) {r : Comm T × ResultStatus}
    → comm_loop lib ends until c rounds ≡ ok r
    → stream_of r.0.writer ≡ stream_of c.writer
comm_loop-stream_of lib ends until rounds c =
    comm_loop_rule lib ends (λ d. stream_of d.writer ≡ stream_of c.writer)
      (λ d w e p h. on_writable-stream_of _ d.writer e h ∙ p) (λ d rd answers p _. p) until rounds c
      refl
