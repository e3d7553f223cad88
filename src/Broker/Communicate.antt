-- ===== src/Broker/Communicate.antt =====
-- src/lib/BrokerImplCommunicate.cpp: the loop that moves bytes between the broker's buffers and the
-- pipes of one solution until the tokenizer has an answer, the output ends or the time is over.
pub mod Rule
pub mod Token
pub mod Delivery
pub mod Deadline
pub mod Overflow
pub mod Flood
pub mod Events
pub mod Reports
pub mod Answered
pub mod Balance
use deprecated_yandex_contes.Base.{
  ℕ, suc, ◌+◌, ◌-◌, ◌*◌, min, Bool, true, false, not, ◌||◌, List, [], ◌∷◌, ◌++◌, Option, none, some,
  Bytes, length, take, drop, ◌==◌, if◌then◌else◌, Result, ok, err, ◌>>=◌, ◌>>◌, assert, throw_if,
  system_error, pending, ℤ, pos, negsuc, ◌+ℤ◌, ltb_ℤ, int64,
}
use deprecated_yandex_contes.Tokenizer.{
  Status, fail, continue, accepted, TokenizerResult, TokenizerLibrary, tokenize,
}
use deprecated_yandex_contes.Broker.Types.{ResultStatus, ok_status, real_time_limit_exceeded}

-- What the kernel answers. A call of `write` that is offered some bytes takes up to `n` of them; a
-- call of `read` returns bytes, none at the end of the file; either may report EAGAIN or another
-- error.
pub data WriteAnswer : Type 0 where
  wrote : ℕ → WriteAnswer
  write_again write_failed : WriteAnswer

pub data ReadAnswer : Type 0 where
  got : Bytes → ReadAnswer
  read_again read_failed : ReadAnswer

-- An event of epoll, with the answers to the calls that its handler makes. Where a list of answers
-- has ended and the handler still calls, the handler is not done (`pending`).
pub record Event : Type 0 where
  pub fd : ℕ
  pub epollin : Bool
  pub epollout : Bool
  pub epollerr : Bool
  pub epollhup : Bool
  pub writes : List WriteAnswer
  pub reads : List ReadAnswer

-- A call of `epoll_wait` and the clock behind it, in nanoseconds.
pub data Poll : Type 0 where
  polled : List Event → ℤ → Poll
  poll_failed : Poll

-- A round of the outer loop: the clock at its head and the calls of `epoll_wait`.
pub record Round : Type 0 where
  pub now : ℤ
  pub polls : List Poll

-- What `communicate` meets: the clock at its head, whether epoll can be set up, and the rounds.
pub record Environment : Type 0 where
  pub start : ℤ
  pub epoll_ready : Bool
  pub rounds : List Round

abbrev pub is_continue : Status → Bool
is_continue continue = true
is_continue _ = false

-- `BUFSIZ` of glibc.
abbrev pub bufsiz : ℕ
bufsiz = 8192

-- The fields of the solution that the reading side changes, whether epoll watches the read end, and
-- all bytes that `read` has returned.
pub record Reader (T : Type 0) : Type 0 where
  pub tokenizer : T
  pub status : Status
  pub result : Bytes
  pub outbuf : Bytes
  pub watched : Bool
  pub taken : Bytes

-- `epoll_ctl_del`, which throws at a descriptor that is not watched.
abbrev pub unwatch : Bool → Result Bool
unwatch true = ok false
unwatch false = err system_error

module _ {T : Type 0} (lib : TokenizerLibrary T) where
  -- The switch on the tokenizer's answer.
  unfoldable pub file_answer : Reader T → Bytes → TokenizerResult → Status → Result (Reader T)
  file_answer rd chunk r fail = do
    watched' ← unwatch rd.watched
    ok (record rd { watched = watched' })
  file_answer rd chunk r continue = ok (record rd { result = rd.result ++ chunk })
  file_answer rd chunk r accepted = ok (record rd {
    result = rd.result ++ take r.accepted chunk;
    outbuf = rd.outbuf ++ drop r.accepted chunk;
  })

  -- The body of the read loop, on the bytes of one `read`.
  unfoldable pub read_chunk : Reader T → Bytes → Result (Reader T)
  unfolding file_answer
  read_chunk rd chunk = do
    (t, r) ← tokenize lib rd.tokenizer chunk
    file_answer (record rd { tokenizer = t; status = r.status; taken = rd.taken ++ chunk }) chunk r
        r.status

  unfoldable pub read_loop : Reader T → List ReadAnswer → Result (Reader T)
  read_loop rd [] = if is_continue rd.status then err pending else ok rd
  read_loop rd (got [] ∷ answers) = ok rd
  read_loop rd (got (b ∷ bs) ∷ answers) = elim (is_continue rd.status) [
    | true ↦ do rd' ← read_chunk rd (b ∷ bs); read_loop rd' answers
    | false ↦ ok rd
  ]
  read_loop rd (read_again ∷ answers) = ok rd
  read_loop rd (read_failed ∷ answers) = if is_continue rd.status then err system_error else ok rd

-- The writing side: the buffer, whether epoll watches the write end, and all bytes that `write` has
-- taken.
pub record Writer : Type 0 where
  pub inbuf : Bytes
  pub watched : Bool
  pub delivered : Bytes

unfoldable pub write_loop : Writer → List WriteAnswer → Result Writer
write_loop w [] = if length w.inbuf == 0 then ok w else err pending
write_loop w (wrote n ∷ answers) =
    let bsize = min bufsiz (length w.inbuf) in
    let size = min n bsize in
    write_loop
      (record w { inbuf = drop size w.inbuf; delivered = w.delivered ++ take size w.inbuf }) answers
write_loop w (write_again ∷ answers) = ok w
write_loop w (write_failed ∷ answers) = if length w.inbuf == 0 then ok w else err system_error

-- `epoll_ctl_del` of the write end.
unfoldable pub unwatch_writer : Writer → Result Writer
unwatch_writer w = do watched' ← unwatch w.watched; ok (record w { watched = watched' })

-- Behind the write loop.
unfoldable pub written : Writer → Result Writer
unfolding unwatch_writer
written w = if length w.inbuf == 0 then unwatch_writer w else ok w

-- The write loop and what follows it, if the tokenizer still waits.
unfoldable pub write_out : Bool → Writer → Event → Result Writer
write_out false w e = ok w
write_out true w e = do w' ← write_loop w e.writes; written w'

-- The handler of an event at the write end. The flag: the tokenizer still waits.
unfoldable pub on_writable : Bool → Writer → Event → Result Writer
on_writable waits w e = elim (e.epollerr || e.epollhup) [
  | true ↦ unwatch_writer w
  | false ↦ do assert e.epollout; write_out waits w e
]

pub record Comm (T : Type 0) : Type 0 where
  pub reader : Reader T
  pub writer : Writer

-- The descriptors of the pipes.
pub record Ends : Type 0 where
  pub in_fd : ℕ
  pub out_fd : ℕ

-- The clock counts nanoseconds, a limit milliseconds.
unfoldable pub nanoseconds : ℤ → ℤ
nanoseconds (pos n) = pos (n * 1_000_000)
nanoseconds (negsuc n) = negsuc (suc n * 1_000_000 - 1)

-- `untilPoint`: the duration is converted to the clock's unit and added to its reading, both in 64
-- bits; an overflow wraps around.
unfoldable pub until_point : ℤ → ℤ → ℤ
unfolding nanoseconds
until_point now limit = int64 (now +ℤ int64 (nanoseconds limit))

-- The loop around `epoll_wait`, from a reading of the clock. No events: the time is over.
unfoldable pub wait : ℤ → ℤ → List Poll → Result (List Event)
wait until now [] = if ltb_ℤ now until then err pending else ok []
wait until now (poll_failed ∷ polls) = if ltb_ℤ now until then err system_error else ok []
wait until now (polled (e ∷ es) later ∷ polls) = if ltb_ℤ now until then ok (e ∷ es) else ok []
wait until now (polled [] later ∷ polls) =
    let rest = wait until later polls in if ltb_ℤ now until then rest else ok []

module _ {T : Type 0} (lib : TokenizerLibrary T) (ends : Ends) where
  -- The loop over the events of one `epoll_wait`. `true`: the function returned within it, since
  -- the output has ended.
  unfoldable pub handle : Comm T → List Event → Result (Comm T × Bool)
  handle c [] = ok (c, false)
  handle c (e ∷ es) = elim (e.fd == ends.in_fd) [
    | true ↦ do
      w ← on_writable (is_continue c.reader.status) c.writer e
      handle (record c { writer = w }) es
    | false ↦ elim (e.fd == ends.out_fd) [
      | true ↦ elim e.epollin [
        | true ↦ do rd ← read_loop lib c.reader e.reads; handle (record c { reader = rd }) es
        | false ↦ ok (c, true)
      ]
      | false ↦ handle c es
    ]
  ]

  -- What follows a wait. The status is what the function returns at this point, if it does.
  unfoldable pub react : Comm T → List Event → Result (Comm T × Option ResultStatus)
  react c [] = ok (c, some real_time_limit_exceeded)
  react c (e ∷ es) = do
    (c', returned) ← handle c (e ∷ es)
    ok (c', if returned then some ok_status else none)

  -- The body of the outer loop.
  unfoldable pub run_round : ℤ → Comm T → Round → Result (Comm T × Option ResultStatus)
  run_round until c r = do events ← wait until r.now r.polls; react c events

  -- The outer loop.
  unfoldable pub comm_loop : ℤ → Comm T → List Round → Result (Comm T × ResultStatus)
  comm_loop until c [] = if is_continue c.reader.status then err pending else ok (c, ok_status)
  comm_loop until c (r ∷ rounds) = elim (is_continue c.reader.status) [
    | false ↦ ok (c, ok_status)
    | true ↦ do
      (c', returned) ← run_round until c r
      elim returned [ some status ↦ ok (c', status) | none ↦ comm_loop until c' rounds ]
  ]

  -- `communicate`, from the fields of the solution that it uses; the limit is in milliseconds.
  unfoldable pub communicate : ℤ → Environment → Comm T → Result (Comm T × ResultStatus)
  communicate limit env c = do
    throw_if (not env.epoll_ready) system_error
    comm_loop (until_point env.start limit) c env.rounds
