-- ===== src/Broker/Communicate/Overflow.antt =====
-- The time limit of `communicate` in 64 bits: when it is exact, and what the largest limit does.
use deprecated_yandex_contes.Base.{
  ℕ, ◌-◌, ◌^◌, ◌≤◌, ◌<◌, true, false, List, ◌∷◌, ok, ◌≡◌, refl, ap, ◌∙◌, arith, ℤ, pos, negsuc,
  ◌+ℤ◌, ltb_ℤ, int64,
}
use deprecated_yandex_contes.Tokenizer.{TokenizerLibrary}
use deprecated_yandex_contes.Broker.Types.{real_time_limit_exceeded}
use deprecated_yandex_contes.Broker.Communicate.{
  Comm, Ends, Round, Environment, is_continue, nanoseconds, until_point, comm_loop, communicate,
}
use deprecated_yandex_contes.Broker.Communicate.Deadline.{run_round_over}

-- The value fits in 64 bits.
abbrev pub FitsInt64 : ℤ → Type 0
FitsInt64 (pos n) = n < 2 ^ 63
FitsInt64 (negsuc n) = n < 2 ^ 63

pub int64_self : (a : ℤ) → FitsInt64 a → int64 a ≡ a
unfolding int64
int64_self (pos n) h = ground arith
int64_self (negsuc n) h = ground arith

-- Where neither the limit in nanoseconds nor the sum overflows, the time limit is their sum.
pub until_point_exact :
    (now limit : ℤ)
    → FitsInt64 (nanoseconds limit)
    → FitsInt64 (now +ℤ nanoseconds limit)
    → until_point now limit ≡ now +ℤ nanoseconds limit
unfolding until_point
until_point_exact now limit fits sum =
    ap (λ x. int64 (now +ℤ x)) (int64_self (nanoseconds limit) fits)
    ∙ int64_self (now +ℤ nanoseconds limit) sum

-- `std::chrono::milliseconds::max()`.
abbrev pub max_limit : ℤ
max_limit = pos (2 ^ 63 - 1)

-- The product overflows to a millisecond before now.
until_point_max :
    (n : ℕ) → 1_000_000 ≤ n → n < 2 ^ 63 → until_point (pos n) max_limit ≡ pos (n - 1_000_000)
unfolding until_point nanoseconds int64
until_point_max n le lt = ground arith

-- With the largest limit that the type has, communicate of a solution whose tokenizer waits reports
-- the real time limit at once, and neither reads nor writes, if the clock has counted at least a
-- millisecond, has not run out of 64 bits and does not go back, and epoll can be set up.
pub communicate_max :
    {T : Type 0} (lib : TokenizerLibrary T) (ends : Ends) (env : Environment) (c : Comm T)
    (n now : ℕ) (r : Round) (rounds : List Round)
    → env.start ≡ pos n
    → 1_000_000 ≤ n
    → n < 2 ^ 63
    → env.epoll_ready ≡ true
    → env.rounds ≡ r ∷ rounds
    → r.now ≡ pos now
    → n ≤ now
    → is_continue c.reader.status ≡ true
    → communicate lib ends max_limit env c ≡ ok (c, real_time_limit_exceeded)
unfolding communicate comm_loop
communicate_max lib ends env c n now r rounds start le lt ready first clock later waits =
    let limit : until_point env.start max_limit ≡ pos (n - 1_000_000) =
      ap (λ x. until_point x max_limit) start ∙ until_point_max n le lt in
    let over : ltb_ℤ r.now (until_point env.start max_limit) ≡ false =
      rw (limit, clock) (ground arith) in
    let called : communicate lib ends max_limit env c
        ≡ comm_loop lib ends (until_point env.start max_limit) c env.rounds =
      rw ready refl in
    let step = run_round_over lib ends (until_point env.start max_limit) c r over in
    let loop : comm_loop lib ends (until_point env.start max_limit) c (r ∷ rounds)
        ≡ ok (c, real_time_limit_exceeded) =
      rw (comm_loop, waits, step) refl in
    called ∙ ap (comm_loop lib ends (until_point env.start max_limit) c) first ∙ loop
