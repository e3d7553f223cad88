-- ===== src/Killer/Stream/Remote.antt =====
-- A call of the killer through its two streams does what the method does.
use deprecated_yandex_contes.Base.{
  ℕ, zero, suc, ◌+◌, ◌<◌, true, false, List, [], ◌∷◌, ◌++◌, Bytes, length, length-append, take,
  drop, take-length_add, drop-length_add, ltb, ok, err, ◌>>=◌, end_of_file, Result-cases, >>=-assoc,
  append-nil, inl, inr, ◌≡◌, arith,
}
use deprecated_yandex_contes.Text.Streams.{OStream}
use deprecated_yandex_contes.Killer.{KillerStatus, KillerOps, KillerCommand, perform}
use deprecated_yandex_contes.Broker.Interface.{Exit, success, exit_of}
use deprecated_yandex_contes.Killer.Stream.{
  Pod, IsPod, Pods, send_bytes, recv_bytes, ask, run, run_once, serve,
}

take-to_bytes :
    {A : Type 0} (p : Pod A) (pod : IsPod p) (a : A) (rest : Bytes)
    → take p.size (p.to_bytes a ++ rest) ≡ p.to_bytes a
take-to_bytes p pod a rest =
    let none_more : length (p.to_bytes a) + 0 ≡ p.size = omega (arith, pod.sized a) in
    rw (← none_more, take-length_add (p.to_bytes a) rest 0) (append-nil (p.to_bytes a))

recv_bytes-to_bytes :
    {A : Type 0} (p : Pod A) (pod : IsPod p) (a : A) (rest : Bytes)
    → recv_bytes p (p.to_bytes a ++ rest) ≡ ok (a, rest)
unfolding recv_bytes
recv_bytes-to_bytes p pod a rest =
    let enough : ltb (length (p.to_bytes a ++ rest)) p.size ≡ false =
      ground (arith, length-append (p.to_bytes a) rest, pod.sized a) in
    let none_more : length (p.to_bytes a) + 0 ≡ p.size = omega (arith, pod.sized a) in
    let last : drop p.size (p.to_bytes a ++ rest) ≡ rest =
      rw (← none_more) (drop-length_add (p.to_bytes a) rest 0) in
    rw (enough, take-to_bytes p pod a rest, last, pod.reads a)

known-to_bytes :
    {A : Type 0} (p : Pod A) (pod : IsPod p) (a : A) (rest : Bytes)
    → p.known (take p.size (p.to_bytes a ++ rest)) ≡ true
known-to_bytes p pod a rest = rw (take-to_bytes p pod a rest) (pod.knows a)

module _ {I K : Type 0} (pods : Pods I) (commands : IsPod pods.command)
    (statuses : IsPod pods.status) (killer : KillerOps I K) where
  -- A call of the killer through its streams that returns a status, from both ends: the server
  -- takes exactly the bytes of the command, performs it and writes the bytes of the status; the
  -- client, whose input begins with them, writes exactly the bytes of the command, takes exactly
  -- the status and returns it. Messages have a fixed size and are known and read back from their
  -- bytes, and the sinks take bytes.
  pub ask-run_once :
      (command : KillerCommand I) (k : K) {s : KillerStatus} {k' : K} (there back : OStream)
      (later rest : Bytes)
      → there.good ≡ true
      → back.good ≡ true
      → perform killer command.type command.id k ≡ ok (s, k')
      → (run_once pods killer (pods.command.to_bytes command ++ later) k back
          ≡ ok (k', later, record back { sent = back.sent ++ pods.status.to_bytes s }))
        × (ask pods command (pods.status.to_bytes s ++ rest) there
            ≡ ok (s, rest, record there { sent = there.sent ++ pods.command.to_bytes command }))
  unfolding run_once run ask send_bytes
  ask-run_once command k {s} there back later rest g₁ g₂ e = (
    rw (
      recv_bytes-to_bytes pods.command commands command later,
      known-to_bytes pods.command commands command later,
      e,
      g₂,
    ),
    rw (g₁, recv_bytes-to_bytes pods.status statuses s rest),
  )

-- The bytes of the commands of a list, one behind the other.
unfoldable pub messages : {I : Type 0} → Pods I → List (KillerCommand I) → Bytes
messages pods [] = []
messages pods (c ∷ cs) = pods.command.to_bytes c ++ messages pods cs

module _ {I K : Type 0} (pods : Pods I) (killer : KillerOps I K) where
  -- The commands one after the other, each with its status, up to the first that fails.
  unfoldable pub session : List (KillerCommand I) → K → OStream → Exit × K × OStream
  session [] k out = (success, k, out)
  session (c ∷ cs) k out = elim (perform killer c.type c.id k) [
    | ok (s, k') ↦ session cs k' (record out { sent = out.sent ++ pods.status.to_bytes s })
    | err e ↦ (exit_of e, k, out)
  ]

module _ {I K : Type 0} (pods : Pods I) (commands : IsPod pods.command)
    (killer : KillerOps I K) where
  run_once-perform :
      (c : KillerCommand I) (k : K) (out : OStream) (later : Bytes)
      → out.good ≡ true
      → run_once pods killer (pods.command.to_bytes c ++ later) k out
        ≡ perform killer c.type c.id k >>= λ (r : KillerStatus × K).
            ok (r.1, later, record out { sent = out.sent ++ pods.status.to_bytes r.0 })
  unfolding run_once run send_bytes
  run_once-perform c k out later g =
      rw
        (
          recv_bytes-to_bytes pods.command commands c later,
          known-to_bytes pods.command commands c later,
          g,
        )
        (>>=-assoc (perform killer c.type c.id k) _ _)

  -- Fed the bytes of a list of commands, and given more fuel than commands, the loop of killer.cpp
  -- performs these commands in this order, writes the status of each, exits with status 0 behind
  -- the last one, and stops at the first that fails. A command takes at least a byte, commands are
  -- known and read back from their bytes, and the sink takes bytes.
  pub serve-messages :
      (cs : List (KillerCommand I)) (fuel : ℕ) (k : K) (out : OStream)
      → 0 < pods.command.size
      → out.good ≡ true
      → length cs < fuel
      → serve pods killer fuel (messages pods cs) k out ≡ session pods killer cs k out
  unfolding serve messages session
  serve-messages cs zero k out big g h = absurd (omega arith)
  serve-messages [] (suc fuel) k out big g h =
      let stop : run_once pods killer [] k out ≡ err end_of_file =
        unfold run_once recv_bytes in ground arith in
      rw (stop, serve)
  serve-messages (c ∷ cs) (suc fuel) k out big g h =
      let round = run_once-perform c k out (messages pods cs) g in
      elim (Result-cases (perform killer c.type c.id k)) [
        | inl (e, p) ↦ rw (round, serve, p, session)
        | inr ((s, k'), p) ↦
            rw (round, serve, p, session) (serve-messages cs fuel k' _ big g (omega arith))
      ]
