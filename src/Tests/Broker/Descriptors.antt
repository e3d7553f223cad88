-- ===== src/Tests/Broker/Descriptors.antt =====
-- A table of file status flags, and the constructor on it.
use Prim.Native.Nat.{bit_or}
use deprecated_yandex_contes.Base.{
  ℕ, All, true, [], ◌∷◌, ◌==◌, if◌then◌else◌, Bool-cases, ℤ, pos, ok, ◌≡◌, refl, ap, subst, sym,
  ◌∙◌, inl, inr, arith,
}
use deprecated_yandex_contes.Tokenizer.{continue}
use deprecated_yandex_contes.Broker.Descriptors.{o_nonblock, setnonblock, set_flags, set_done}
use deprecated_yandex_contes.Broker.State.{put_solution, solution}
use deprecated_yandex_contes.Broker.Impl.{construct, setup_from, freeze}
use deprecated_yandex_contes.Broker.Impl.Nonblocking.{IsFcntl, PipesFree, construct-PipesFree}
use deprecated_yandex_contes.Tests.Broker.Solutions.{
  table, killer, two_processes, fresh_broker, env,
}

abbrev IsFree : (ℕ → ℕ) → ℕ → Type 0
IsFree fds fd = (flags : ℕ) × (fds fd ≡ bit_or flags o_nonblock)

-- The table behind a call with F_SETFL.
after :
    (fd flags n : ℕ) (fds fds' : ℕ → ℕ)
    → table.setfl fd flags fds ≡ (pos n, fds')
    → (λ i. if i == fd then flags else fds i) ≡ fds'
after fd flags n fds fds' e = ap (λ (x : ℤ × (ℕ → ℕ)). x.1) e

table-IsFcntl : IsFcntl table IsFree
table-IsFcntl = record {
  sets = λ fd flags n fds fds' e.
      let same : (fd == fd) ≡ true = ground arith in
      (
        flags,
        ap (λ (x : ℕ → ℕ). x fd) (sym (after fd (bit_or flags o_nonblock) n fds fds' e))
            ∙ rw same refl,
      );
  keeps = λ fd flags n other fds fds' e free.
      subst (λ (x : ℕ → ℕ). IsFree x other) (after fd (bit_or flags o_nonblock) n fds fds' e)
        (elim (Bool-cases (other == fd)) [
          | inl c ↦ (flags, rw c refl)
          | inr d ↦ (free.0, rw d free.1)
        ]);
}

abbrev fds_after : ℕ → ℕ
fds_after i =
    if i == 7
    then 2049
    else if i == 6
    then 2049
    else if i == 4
    then 2049
    else if i == 3
    then 2049
    else 1

constructed :
    construct killer two_processes table (λ _. 1) continue 0 (env ∷ [])
    ≡ ok (fds_after, fresh_broker)
unfolding construct setup_from freeze solution put_solution setnonblock set_flags set_done
constructed = refl

construct-PipesFree_example :
    All (PipesFree table IsFree table-IsFcntl fds_after) two_processes.solutions
construct-PipesFree_example =
    construct-PipesFree table IsFree table-IsFcntl killer two_processes (λ _. 1) continue 0
      (env ∷ []) constructed
