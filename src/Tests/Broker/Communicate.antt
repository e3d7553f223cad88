-- ===== src/Tests/Broker/Communicate.antt =====
-- The loop of src/lib/BrokerImplCommunicate.cpp at concrete inputs.
use deprecated_yandex_contes.Base.{
  none, ap, ◌∙◌, length, ◌+◌, Bool, true, false, List, [], ◌∷◌, Bytes, codes, Result, ok, err,
  pending, pos, ◌≡◌, ◌≢◌, refl, inl, inr, ◌>>=◌, arith,
}
use deprecated_yandex_contes.Tokenizer.{
  TokenizerLibrary, TokenizerResult, Status, continue, accepted, tokenize, status_of,
}
use deprecated_yandex_contes.Tokenizer.Laws.{shift}
use deprecated_yandex_contes.Tokenizer.SplitChar.{SplitChar, split_char, memchr}
use deprecated_yandex_contes.Tokenizer.SplitChar
use deprecated_yandex_contes.Tokenizer.SplitChar.Contract.{split_char-IsTokenizer}
use deprecated_yandex_contes.Broker.Types.{ok_status, real_time_limit_exceeded}
use deprecated_yandex_contes.Broker.Communicate.{
  Writer, Round, Poll, polled, Event, got, read_again, wrote, write_again, Ends, Comm, comm_loop,
  run_round, wait, react, handle, on_writable, write_out, write_loop, written, unwatch_writer,
  read_loop, read_chunk, file_answer, is_continue, Environment, communicate,
}
use deprecated_yandex_contes.Broker.Communicate.Token.{ScannedAt, ReadsOn, comm_loop-ReadsOn}
use deprecated_yandex_contes.Broker.Communicate.Events.{BringAll}
use deprecated_yandex_contes.Broker.Communicate.Answered.{Waiting, comm_loop-answered}
use deprecated_yandex_contes.Broker.Communicate.Delivery.{stream_of, comm_loop-stream_of}
use deprecated_yandex_contes.Broker.Communicate.Flood.{Waits, comm_loop-flooded}
use deprecated_yandex_contes.Broker.Communicate.Overflow.{max_limit, communicate_max}
use deprecated_yandex_contes.Broker.Communicate.Deadline.{Returns, comm_loop-ne-pending}

abbrev lib : TokenizerLibrary SplitChar
lib = split_char true

abbrev ends : Ends
ends = record { in_fd = 3; out_fd = 4 }

abbrev comma : SplitChar
comma = record { sep = b',' }

abbrev comm_with : Status → Bytes → Bytes → Bytes → Bool → Bytes → Bytes → Comm SplitChar
comm_with s result out taken watched inbuf delivered = record {
  reader = record {
    tokenizer = comma;
    status = s;
    result = result;
    outbuf = out;
    watched = true;
    taken = taken;
  };
  writer = record { inbuf = inbuf; watched = watched; delivered = delivered };
}

abbrev quiet : Event
quiet = record {
  fd = 5;
  epollin = false;
  epollout = false;
  epollerr = false;
  epollhup = false;
  writes = [];
  reads = [];
}

abbrev start : Comm SplitChar
start = comm_with continue [] [] [] true (codes "go") []

abbrev writable : Event
writable = record quiet { fd = 3; epollout = true; writes = wrote 1 ∷ write_again ∷ [] }

abbrev printed : Bytes → Event
printed bs = record quiet { fd = 4; epollin = true; reads = got bs ∷ read_again ∷ [] }

abbrev first_polls : List Poll
first_polls = polled (writable ∷ printed (codes "a") ∷ []) (pos 2) ∷ []

abbrev second_polls : List Poll
second_polls = polled [] (pos 4) ∷ polled (printed (codes "b,c") ∷ []) (pos 5) ∷ []

-- The solution takes a byte of the message, and prints a token in two parts.
abbrev rounds : List Round
rounds =
    (record { now = pos 1; polls = first_polls })
    ∷ (record { now = pos 3; polls = second_polls })
    ∷ (record { now = pos 9; polls = [] })
    ∷ []

abbrev done : Comm SplitChar
done = comm_with accepted (codes "ab,") (codes "c") (codes "ab,c") true (codes "o") (codes "g")

finished : comm_loop lib ends (pos 9) start rounds ≡ ok (done, ok_status)
unfolding comm_loop run_round wait react handle on_writable write_out write_loop written
    unwatch_writer read_loop read_chunk file_answer tokenize SplitChar.parse memchr status_of
finished = refl

fresh_comma : ScannedAt lib (λ _. Unit {0}) comma continue [] start.reader
fresh_comma = (tt, refl, refl, λ ys. none_before (tokenize lib comma ys))
  where
    none_before :
        (m : Result (SplitChar × TokenizerResult))
        → m ≡ (m >>= λ (q : SplitChar × TokenizerResult). ok (shift 0 q))
    none_before (ok (t, r)) =
        let e : r.accepted ≡ 0 + r.accepted = omega arith in
        λ i. ok (t, record r { accepted = e i })
    none_before (err e) = refl

comm_loop-ReadsOn_example :
    ReadsOn lib (λ _. Unit {0}) comma (split_char-IsTokenizer true) [] start.reader done.reader
comm_loop-ReadsOn_example =
    comm_loop-ReadsOn lib (λ _. Unit {0}) comma (split_char-IsTokenizer true) ends (pos 9) rounds
      start [] fresh_comma finished

comm_loop-stream_of_example : stream_of done.writer ≡ codes "go"
comm_loop-stream_of_example = comm_loop-stream_of lib ends (pos 9) rounds start finished

lib-Returns : Returns lib
unfolding tokenize SplitChar.parse
lib-Returns t chunk = ground arith

comm_loop-ne-pending_example : comm_loop lib ends (pos 9) start rounds ≢ err pending
comm_loop-ne-pending_example = comm_loop-ne-pending lib ends lib-Returns (pos 9) rounds start (
    inr (
      ((λ _. tt, λ p. cc), ((λ p. cc, λ _. tt), tt)),
      inr (inr ((λ p. cc, λ _. tt), tt), inl refl),
    ))

abbrev late : Comm SplitChar
late = comm_with continue (codes "a") [] (codes "a") true (codes "o") (codes "g")

timed_out : comm_loop lib ends (pos 2) start rounds ≡ ok (late, real_time_limit_exceeded)
unfolding comm_loop run_round wait react handle on_writable write_out write_loop written
    unwatch_writer read_loop read_chunk file_answer tokenize SplitChar.parse memchr status_of
timed_out = refl

-- The rounds up to the token.
abbrev output_rounds : List Round
output_rounds =
    (record { now = pos 1; polls = first_polls })
    ∷ (record { now = pos 3; polls = second_polls })
    ∷ []

abbrev half_written : Writer
half_written = record { inbuf = codes "o"; watched = true; delivered = codes "g" }

brought : BringAll ends (pos 9) start.writer output_rounds (codes "ab,c")
unfolding wait on_writable write_out write_loop written unwatch_writer
brought = (
  codes "a",
  codes "b,c",
  half_written,
  refl,
  (
    writable,
    printed (codes "a") ∷ [],
    refl,
    inl (
      half_written,
      (refl, refl, refl, refl),
      inr (codes "a", [], refl, (refl, refl, ([], refl, refl)), (refl, refl)),
    ),
  ),
  (
    codes "b,c",
    [],
    half_written,
    refl,
    (
      printed (codes "b,c"),
      [],
      refl,
      inr (codes "b,c", [], refl, (refl, refl, ([], refl, refl)), (refl, refl)),
    ),
    refl,
  ),
)

start-Waiting : Waiting lib (λ _. Unit {0}) comma (split_char-IsTokenizer true) [] start.reader
unfolding tokenize SplitChar.parse memchr status_of
start-Waiting = (refl, fresh_comma, refl, (comma, 0, refl))

answers : tokenize lib comma (codes "ab,c") ≡ ok (comma, record { status = accepted; accepted = 3 })
unfolding tokenize SplitChar.parse memchr status_of
answers = refl

comm_loop-answered_example :
    (c : Comm SplitChar) × (comm_loop lib ends (pos 9) start output_rounds ≡ ok (c, ok_status))
    × (is_continue c.reader.status ≡ false)
    × ReadsOn lib (λ _. Unit {0}) comma (split_char-IsTokenizer true) [] start.reader c.reader
comm_loop-answered_example =
    comm_loop-answered lib (λ _. Unit {0}) comma (split_char-IsTokenizer true) ends (pos 9)
      (λ e. let low : 3 ≡ 4 = e in omega (arith, low)) output_rounds start [] (codes "ab,c") comma
      (record { status = accepted; accepted = 3 }) start-Waiting brought answers refl

-- With the largest limit the time is over at once, although the solution has answers for `rounds`.
abbrev hasty : Environment
hasty = record {
  start = pos 2_000_000;
  epoll_ready = true;
  rounds = (record { now = pos 2_000_001; polls = first_polls }) ∷ [];
}

communicate_max_example :
    communicate lib ends max_limit hasty start ≡ ok (start, real_time_limit_exceeded)
communicate_max_example =
    communicate_max lib ends hasty start 2_000_000 2_000_001
      (record { now = pos 2_000_001; polls = first_polls }) [] refl (omega arith) (omega arith) refl
      refl refl (omega arith) refl

-- The tokenizer for commas, and output without one.
abbrev AtComma : SplitChar → Type 0
AtComma t = t.sep ≡ b','

abbrev NoComma : Bytes → Type 0
NoComma chunk = memchr b',' chunk ≡ none

comma-Waits : Waits lib AtComma NoComma
unfolding tokenize SplitChar.parse status_of
comma-Waits t chunk at dull =
    let never : memchr t.sep chunk ≡ none = ap (λ c. memchr c chunk) at ∙ dull in
    (t, length chunk, ground arith, at)

no_comma : NoComma (codes "aa")
unfolding memchr
no_comma = refl

-- The clock is past the limit behind `epoll_wait`, and the loop reads on.
abbrev flood : Event
flood = record quiet {
  fd = 4;
  epollin = true;
  reads = got (codes "aa") ∷ got (codes "aa") ∷ got (codes "aa") ∷ [];
}

comm_loop-flooded_example :
    comm_loop lib ends
      (pos 5)
      start
      ((record { now = pos 1; polls = polled (flood ∷ []) (pos 9) ∷ [] }) ∷ [])
    ≡ err pending
comm_loop-flooded_example =
    comm_loop-flooded lib AtComma NoComma comma-Waits ends (pos 5) start flood [] (pos 1) (pos 9) []
      [] refl refl refl refl refl refl (no_comma, (no_comma, (no_comma, tt)))
