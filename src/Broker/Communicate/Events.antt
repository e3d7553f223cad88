-- ===== src/Broker/Communicate/Events.antt =====
-- Rounds that bring output and take input without errors, and what the loop of communicate does on
-- them.
use deprecated_yandex_contes.Base.{
  ◌||◌, true, false, List, [], ◌∷◌, ◌++◌, Bytes, ok, none, ℤ, ◌==◌, ◌≡◌, ◌≢◌, ◌⊎◌, refl, ap, ◌∙◌,
  inl, inr, arith,
}
use deprecated_yandex_contes.Tokenizer.{TokenizerLibrary}
use deprecated_yandex_contes.Broker.Types.{ok_status}
use deprecated_yandex_contes.Broker.Communicate.{
  Writer, on_writable, write_out, Ends, Comm, Round, Event, wait, handle, react, run_round,
  comm_loop, ReadAnswer, got, read_again, read_failed, is_continue, Reader, read_loop,
}

-- The answers to the calls of `read` bring these bytes, in chunks, up to the end of the output or to
-- EAGAIN, and none of them is another error.
abbrev pub Chunks : List ReadAnswer → Bytes → Type 0
Chunks [] bytes = ⊥
Chunks (got [] ∷ answers) bytes = bytes ≡ []
Chunks (got (b ∷ bs) ∷ answers) bytes =
    (rest : Bytes) × (bytes ≡ (b ∷ bs) ++ rest) × Chunks answers rest
Chunks (read_again ∷ answers) bytes = bytes ≡ []
Chunks (read_failed ∷ answers) bytes = ⊥

-- The write end can be written to without an error or a hang-up, which leads from `w` to `w₁`.
abbrev pub Takes : Ends → Writer → Event → Writer → Type 0
Takes ends w e w₁ =
    (e.fd ≡ ends.in_fd)
    × ((e.epollerr || e.epollhup) ≡ false)
    × (e.epollout ≡ true)
    × (on_writable true w e ≡ ok w₁)

-- The read end brings these bytes.
abbrev pub Gives : Ends → Event → Bytes → Type 0
Gives ends e bytes = (e.fd ≡ ends.out_fd) × (e.epollin ≡ true) × Chunks e.reads bytes

-- The events are of these two kinds; they bring the bytes and lead from `w` to `w'`.
abbrev pub Events : Ends → Writer → List Event → Bytes → Writer → Type 0
Events ends w [] bytes w' = (bytes ≡ []) × (w' ≡ w)
Events ends w (e ∷ es) bytes w' =
    ((w₁ : Writer) × Takes ends w e w₁ × Events ends w₁ es bytes w')
    ⊎ ((now : Bytes) × (later : Bytes) × (bytes ≡ now ++ later)
        × Gives ends e now
        × Events ends w es later w')

-- Before the limit, a round has such events.
abbrev pub Brings : Ends → ℤ → Writer → Round → Bytes → Writer → Type 0
Brings ends until w round bytes w' =
    (e : Event) × (es : List Event) × (wait until round.now round.polls ≡ ok (e ∷ es))
    × Events ends w (e ∷ es) bytes w'

abbrev pub BringAll : Ends → ℤ → Writer → List Round → Bytes → Type 0
BringAll ends until w [] bytes = bytes ≡ []
BringAll ends until w (round ∷ rounds) bytes =
    (now : Bytes) × (later : Bytes) × (w' : Writer) × (bytes ≡ now ++ later)
    × Brings ends until w round now w'
    × BringAll ends until w' rounds later

module _ {T : Type 0} (lib : TokenizerLibrary T) where
  pub read_loop_stopped :
      (answers : List ReadAnswer) (rd : Reader T)
      → is_continue rd.status ≡ false
      → read_loop lib rd answers ≡ ok rd
  unfolding read_loop
  read_loop_stopped [] rd stop = rw (read_loop, stop) refl
  read_loop_stopped (got [] ∷ answers) rd stop = refl
  read_loop_stopped (got (_ ∷ _) ∷ answers) rd stop = rw (read_loop, stop) refl
  read_loop_stopped (read_again ∷ answers) rd stop = refl
  read_loop_stopped (read_failed ∷ answers) rd stop = rw (read_loop, stop) refl

  module _ (ends : Ends) where
    pub comm_loop_stopped :
        (until : ℤ) (c : Comm T) (rounds : List Round)
        → is_continue c.reader.status ≡ false
        → comm_loop lib ends until c rounds ≡ ok (c, ok_status)
    unfolding comm_loop
    comm_loop_stopped until c [] stop = rw stop refl
    comm_loop_stopped until c (_ ∷ _) stop = rw (comm_loop, stop) refl

    -- An event of each kind, in front of others.
    pub handle-write :
        (c : Comm T) (e : Event) (es : List Event) (w : Writer)
        → e.fd ≡ ends.in_fd
        → on_writable (is_continue c.reader.status) c.writer e ≡ ok w
        → handle lib ends c (e ∷ es) ≡ handle lib ends (record c { writer = w }) es
    unfolding handle
    handle-write c e es w at_in wrote =
        let in_end : (e.fd == ends.in_fd) ≡ true = ground arith in rw (handle, in_end, wrote) refl

    pub handle-read :
        (c : Comm T) (e : Event) (es : List Event) {rd : Reader T}
        → ends.in_fd ≢ ends.out_fd
        → e.fd ≡ ends.out_fd
        → e.epollin ≡ true
        → read_loop lib c.reader e.reads ≡ ok rd
        → handle lib ends c (e ∷ es) ≡ handle lib ends (record c { reader = rd }) es
    unfolding handle
    handle-read c e es apart at_out readable read =
        let not_in : (e.fd == ends.in_fd) ≡ false = ground arith in
        let out : (e.fd == ends.out_fd) ≡ true = ground arith in
        rw (handle, not_in, out, readable, read) refl

    -- The handler of the write end does nothing any more.
    on_writable_stopped :
        (w : Writer) (e : Event)
        → (e.epollerr || e.epollhup) ≡ false
        → e.epollout ≡ true
        → on_writable false w e ≡ ok w
    unfolding on_writable write_out
    on_writable_stopped w e fine writable = ground arith

    pub handle_stopped :
        (apart : ends.in_fd ≢ ends.out_fd) (es : List Event) (c : Comm T) (w w' : Writer)
        (bytes : Bytes)
        → is_continue c.reader.status ≡ false
        → Events ends w es bytes w'
        → handle lib ends c es ≡ ok (c, false)
    unfolding handle
    handle_stopped apart [] c w w' bytes stop _ = refl
    handle_stopped apart (e ∷ es) c w w' bytes stop (inl (w₁, (at_in, fine, writable, _), rest)) =
        handle-write c e es c.writer at_in
          (ap (λ x. on_writable x c.writer e) stop ∙ on_writable_stopped c.writer e fine writable)
        ∙ handle_stopped apart es c w₁ w' bytes stop rest
    handle_stopped apart (e ∷ es) c w w' bytes stop
          (inr (now, later, _, (at_out, readable, _), rest)) =
        handle-read c e es apart at_out readable (read_loop_stopped e.reads c.reader stop)
        ∙ handle_stopped apart es c w w' later stop rest

    pub run_round-handle :
        (until : ℤ) (c c' : Comm T) (round : Round) (e : Event) (es : List Event)
        → wait until round.now round.polls ≡ ok (e ∷ es)
        → handle lib ends c (e ∷ es) ≡ ok (c', false)
        → run_round lib ends until c round ≡ ok (c', none)
    unfolding run_round react
    run_round-handle until c c' round e es waited handled = rw (waited, handled) refl
