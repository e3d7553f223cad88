-- ===== src/Tests/Broker/Solutions.antt =====
-- The operations of src/lib/BrokerImpl.cpp at concrete inputs: two solutions, tokens that end with a
-- comma, and a killer that counts its calls.
use deprecated_yandex_contes.Base.{
  int64, ◌==◌, if◌then◌else◌, ℕ, ◌+◌, true, false, [], ◌∷◌, Option, none, some, Bytes, codes,
  get_elem?, ok, err, assertion, pos, ◌≡◌, refl,
}
use deprecated_yandex_contes.Tokenizer.{
  TokenizerLibrary, Status, continue, accepted, instance_of, tokenize, status_of,
}
use deprecated_yandex_contes.Tokenizer.SplitChar.{SplitChar, split_char, memchr}
use deprecated_yandex_contes.Tokenizer.SplitChar
use deprecated_yandex_contes.Killer.{KillerOps, KillerStatus}
use deprecated_yandex_contes.Killer
use deprecated_yandex_contes.Broker.Types.{BrokerResult, ok_status, eof_error, default_limits}
use deprecated_yandex_contes.Broker.Interface.{begin}
use deprecated_yandex_contes.Broker.Interface.Calls.{exec}
use deprecated_yandex_contes.Broker.Communicate.{
  polled, Event, got, read_again, wrote, write_again, communicate, comm_loop, run_round, wait,
  react, handle, on_writable, write_out, write_loop, written, unwatch_writer, read_loop, read_chunk,
  file_answer, nanoseconds, until_point,
}
use deprecated_yandex_contes.Broker.Descriptors.{Fcntl}
use deprecated_yandex_contes.Broker.State.{
  text_protocol, Options, Solution, EndEnv, BrokerImpl, leftover, solution, put_solution, send,
  reset,
}
use deprecated_yandex_contes.Broker.Impl.{
  new_broker, construct, setup_from, impl, freeze, unfreeze, terminate, scan_outbuf,
  communicate_with, transfer, verdict, begin_with, begin_as, talk, conclude, end_in,
}
use deprecated_yandex_contes.Broker.Impl
use deprecated_yandex_contes.Broker.Impl.Turn.{iteration, send_all}
use deprecated_yandex_contes.Broker.Impl.Protocol.{Follows, exec-Follows}
use deprecated_yandex_contes.Broker.Impl.Protocol.Refused.{exec-refused}
use deprecated_yandex_contes.Broker.Impl.Fresh.{limited}
use deprecated_yandex_contes.Broker.Impl.Uninitialised.{end_in-uninitialised}

abbrev pub killer : KillerOps ℕ ℕ
killer = record {
  freeze = λ _ k. ok (Killer.ok_status, k + 1);
  unfreeze = λ _ k. ok (Killer.ok_status, k + 1);
  terminate = λ _ k. ok (Killer.ok_status, k + 1);
}

abbrev pub lib : TokenizerLibrary SplitChar
lib = split_char true

abbrev pub comma : SplitChar
comma = record { sep = b',' }

abbrev pub solution_with : ℕ → Bytes → Option SplitChar → Status → Bytes → Solution ℕ SplitChar
solution_with n out t s result = record {
  process = record { ends = record { in_fd = n; out_fd = n + 1 }; id = n };
  tokenizer = t;
  tokenizer_status = s;
  result = result;
  inbuf = [];
  outbuf = out;
  resource_limits = default_limits;
}

abbrev pub quiet : Event
quiet = record {
  fd = 5;
  epollin = false;
  epollout = false;
  epollerr = false;
  epollhup = false;
  writes = [];
  reads = [];
}

-- Both pipes become ready at once.
abbrev pub env : EndEnv
env = record {
  environment = record {
    start = pos 0;
    epoll_ready = true;
    rounds =
        (record {
          now = pos 1;
          polls =
              polled
                ((record quiet { fd = 3; epollout = true; writes = wrote 9 ∷ write_again ∷ [] })
                  ∷ (record quiet {
                    fd = 4;
                    epollin = true;
                    reads = got (codes "b,c") ∷ read_again ∷ [];
                  })
                  ∷ [])
                (pos 2)
              ∷ [];
        })
        ∷ [];
  };
  uninitialised = eof_error;
}

abbrev pub broker_with : Solution ℕ SplitChar → BrokerImpl ℕ SplitChar ℕ
broker_with sol = record {
  default_limits = default_limits;
  default_argument = codes ",";
  solutions = sol ∷ solution_with 6 [] none continue [] ∷ [];
  killer = 0;
  ahead = env ∷ [];
  traffic = [];
}

-- The first solution is idle, and some output is left from before.
abbrev pub here : BrokerImpl ℕ SplitChar ℕ
here = broker_with (solution_with 3 (codes "a") none continue [])

abbrev pub behind : BrokerImpl ℕ SplitChar ℕ
behind = record (broker_with (solution_with 3 (codes "c") none accepted (codes "ab,"))) {
  killer = 2;
  traffic = (record { id = 0; delivered = codes "go"; taken = codes "b,c" }) ∷ [];
}

abbrev pub token : BrokerResult
token = record { status = ok_status; payload = codes "ab," }

pub made : instance_of lib (codes ",") ≡ ok comma
unfolding instance_of SplitChar.new
made = refl

turn :
    iteration lib killer 0 (codes ",") default_limits (codes "go" ∷ []) env false here
    ≡ ok (token, behind)
unfolding iteration begin_with instance_of SplitChar.new scan_outbuf send_all send end_in talk
    conclude unfreeze freeze transfer communicate_with communicate comm_loop run_round wait react
    handle on_writable write_out write_loop written unwatch_writer read_loop read_chunk tokenize
    SplitChar.parse memchr status_of file_answer leftover reset solution put_solution verdict
    nanoseconds until_point int64
turn = refl

abbrev pub begun : BrokerImpl ℕ SplitChar ℕ
begun = broker_with (solution_with 3 [] (some comma) continue (codes "a"))

begins : exec (impl lib killer) (begin 0) here ≡ ok (none, begun)
unfolding exec Impl.begin begin_as begin_with instance_of SplitChar.new scan_outbuf tokenize
    SplitChar.parse memchr status_of leftover solution put_solution
begins = refl

exec-Follows_example : Follows (begin 0) here begun
exec-Follows_example = exec-Follows lib killer (begin 0) here begins

exec-refused_example : exec (impl lib killer) (begin 0) begun ≡ err assertion
exec-refused_example = exec-refused lib killer (begin 0) begun refl refl

-- The token stood in the output that was left from before.
abbrev answered : Solution ℕ SplitChar
answered = solution_with 3 (codes "c") (some comma) accepted (codes "ab,")

end_in-uninitialised_example :
    (b : BrokerImpl ℕ SplitChar ℕ) × (end_in lib killer env 0 false (broker_with answered)
      ≡ ok (record { status = eof_error; payload = [] }, b))
    × (get_elem? b.solutions 0 ≡ some (solution_with 3 [] none accepted (codes "ab,")))
    × (b.killer ≡ 1)
    × (b.traffic ≡ [])
end_in-uninitialised_example =
    end_in-uninitialised lib killer env 0 false (broker_with answered) refl refl refl refl refl

-- The file status flags of the descriptors.
abbrev pub table : Fcntl (ℕ → ℕ)
table = record {
  getfl = λ fd fds. pos (fds fd);
  setfl = λ fd flags fds. (pos 0, λ i. if i == fd then flags else fds i);
}

abbrev pub two_processes : Options ℕ
two_processes = record {
  protocol = text_protocol;
  tokenizer = codes "/lib/split_char.so";
  killer = record { ends = record { in_fd = 8; out_fd = 9 }; id = 1 };
  judge = record { ends = record { in_fd = 10; out_fd = 11 }; id = 2 };
  solutions =
      (record { ends = record { in_fd = 3; out_fd = 4 }; id = 3 })
      ∷ (record { ends = record { in_fd = 6; out_fd = 7 }; id = 6 })
      ∷ [];
  default_limits = record { user_time_limit = pos 5; real_time_limit = pos 9 };
  default_argument = codes ",";
}

abbrev pub fresh_broker : BrokerImpl ℕ SplitChar ℕ
fresh_broker = record {
  default_limits = record { user_time_limit = pos 5; real_time_limit = pos 9 };
  default_argument = codes ",";
  solutions =
      limited two_processes.default_limits (solution_with 3 [] none continue [])
      ∷ limited two_processes.default_limits (solution_with 6 [] none continue [])
      ∷ [];
  killer = 2;
  ahead = env ∷ [];
  traffic = [];
}
