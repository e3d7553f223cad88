-- ===== src/Killer/Stream.antt =====
-- src/lib/KillerInterface.cpp and KillerStreamInterface.cpp: a killer in another process, behind two
-- streams of messages of fixed size; and the loop of src/bin/killer.cpp.
pub mod Remote
pub mod Link
use deprecated_yandex_contes.Base.{
  ℕ, zero, suc, Bool, true, false, Bytes, length, take, drop, ltb, not, Result, ok, err, ◌>>=◌,
  ◌>>◌, throw_if, end_of_file, system_error, ◌≡◌,
}
use deprecated_yandex_contes.Text.Streams.{OStream, put}
use deprecated_yandex_contes.Killer.{KillerStatus, KillerOps, KillerCommand, perform}
use deprecated_yandex_contes.Broker.Interface.{Exit, waiting, exit_of}

-- The representation of a plain type in memory, which the compiler chooses. `known`: the bytes stand
-- for a value of the type; those of an enumeration may be none of its values.
pub record Pod (A : Type 0) : Type 0 where
  pub size : ℕ
  pub to_bytes : A → Bytes
  pub from_bytes : Bytes → A
  pub known : Bytes → Bool

-- A value has that size, and is the one that its bytes stand for.
pub record IsPod {A : Type 0} (p : Pod A) : Type 0 where
  pub sized : (a : A) → length (p.to_bytes a) ≡ p.size
  pub reads : (a : A) → p.from_bytes (p.to_bytes a) ≡ a
  pub knows : (a : A) → p.known (p.to_bytes a) ≡ true

pub record Pods (I : Type 0) : Type 0 where
  pub command : Pod (KillerCommand I)
  pub status : Pod KillerStatus

-- `sendBytes`: a write, a flush and a look at the stream.
unfoldable pub send_bytes : {A : Type 0} → Pod A → A → OStream → Result OStream
send_bytes p a out = do throw_if (not out.good) system_error; ok (put (p.to_bytes a) out)

-- `recvBytes`, from a stream of the bytes that will still arrive.
unfoldable pub recv_bytes : {A : Type 0} → Pod A → Bytes → Result (A × Bytes)
recv_bytes p input = do
  throw_if (ltb (length input) p.size) end_of_file
  ok (p.from_bytes (take p.size input), drop p.size input)

module _ {I : Type 0} (pods : Pods I) where
  -- `KillerInterface::freeze`, `unfreeze` and `terminate`: the client's end of a call.
  unfoldable pub ask : KillerCommand I → Bytes → OStream → Result (KillerStatus × Bytes × OStream)
  unfolding send_bytes recv_bytes
  ask command input output = do
    output' ← send_bytes pods.command command output
    (status, input') ← recv_bytes pods.status input
    ok (status, input', output')

  module _ {K : Type 0} (killer : KillerOps I K) where
    -- `KillerInterface::run`.
    unfoldable pub run : KillerCommand I → K → OStream → Result (K × OStream)
    unfolding send_bytes
    run command k output = do
      (status, k') ← perform killer command.type command.id k
      output' ← send_bytes pods.status status output
      ok (k', output')

    -- `KillerInterface::runOnce`. The switch of `run` passes over a command of another type.
    unfoldable pub run_once : Bytes → K → OStream → Result (K × Bytes × OStream)
    unfolding run recv_bytes
    run_once input k output = do
      (command, input') ← recv_bytes pods.command input
      (k', output') ← elim (pods.command.known (take pods.command.size input)) [
        | true ↦ run command k output
        | false ↦ ok (k, output)
      ]
      ok (k', input', output')

    -- `for (;;) iface.runOnce(killer);` and the handlers of `main`, on fuel: how the process ends,
    -- with what it had done before.
    unfoldable pub serve : ℕ → Bytes → K → OStream → Exit × K × OStream
    serve zero input k output = (waiting, k, output)
    serve (suc fuel) input k output = elim (run_once input k output) [
      | ok (k', input', output') ↦ serve fuel input' k' output'
      | err e ↦ (exit_of e, k, output)
    ]
