-- ===== src/Killer/Stream/Link.antt =====
-- Both ends of src/lib/KillerStreamInterface.cpp at once: the killer that a broker sees behind the
-- streams to the process of src/bin/killer.cpp.
use deprecated_yandex_contes.Base.{
  [], ◌++◌, Bytes, true, not, Result, ok, err, throw_if, end_of_file, system_error, ◌>>=◌, ◌>>◌,
  ◌≡◌, refl, sym, ap, ◌∙◌, append-nil,
}
use deprecated_yandex_contes.Base.Simulation.{Sim, Pair}
use deprecated_yandex_contes.Text.Streams.{OStream}
use deprecated_yandex_contes.Killer.{
  KillerStatus, KillerOps, KillerAction, freeze_action, unfreeze_action, terminate_action,
  KillerCommand, perform,
}
use deprecated_yandex_contes.Killer.Stream.{Pods, IsPod, ask, run_once}
use deprecated_yandex_contes.Killer.Stream.Remote.{ask-run_once}

-- The state of the killer's process, the bytes that it and its client have not read yet, and the
-- stream that the client writes to.
pub record Link (K : Type 0) : Type 0 where
  pub server : K
  pub requests : Bytes
  pub replies : Bytes
  pub output : OStream

module _ {I K : Type 0} (pods : Pods I) (killer : KillerOps I K) where
  -- A call by the client. It waits for the status, and the server reads, acts and writes meanwhile;
  -- at an error the server's process ends, and its stream with it.
  unfoldable pub remote_call : KillerAction → I → Link K → Result (KillerStatus × Link K)
  remote_call action id l = do
    let command : KillerCommand I = record { type = action; id = id }
    throw_if (not l.output.good) system_error
    elim (run_once pods killer (l.requests ++ pods.command.to_bytes command) l.server
        (record { sent = l.replies; good = true })) [
          | err e ↦ err end_of_file
          | ok (k, requests, out) ↦ do
            (status, replies, output) ← ask pods command out.sent l.output
            ok (
              status,
              record { server = k; requests = requests; replies = replies; output = output },
            )
        ]

  abbrev pub remote : KillerOps I (Link K)
  remote = record {
    freeze = remote_call freeze_action;
    unfreeze = remote_call unfreeze_action;
    terminate = remote_call terminate_action;
  }

-- The killer answers every call.
abbrev pub Answers : {I K : Type 0} → KillerOps I K → Type 0
Answers {I = I} {K = K} killer =
    (action : KillerAction) (id : I) (k : K)
    → (r : KillerStatus × K) × (perform killer action id k ≡ ok r)

-- Between two calls the link is idle, and its server is in the state of the killer.
abbrev pub Linked : {K : Type 0} → K → Link K → Type 0
Linked k l = (l.server ≡ k) × (l.requests ≡ []) × (l.replies ≡ []) × (l.output.good ≡ true)

module _ {I K : Type 0} (pods : Pods I) (commands : IsPod pods.command)
    (statuses : IsPod pods.status) (killer : KillerOps I K) (answers : Answers killer) where
  remote_call-ok :
      (action : KillerAction) (id : I) (k k' : K) (s : KillerStatus) (l : Link K)
      → Linked k l
      → perform killer action id k ≡ ok (s, k')
      → (l' : Link K) × (remote_call pods killer action id l ≡ ok (s, l')) × Linked k' l'
  unfolding remote_call
  remote_call-ok action id k k' s l (same, requests, replies, good) e =
      let command : KillerCommand I = record { type = action; id = id } in
      let (served, asked) =
        ask-run_once pods commands statuses killer command k l.output
          (record { sent = []; good = true }) [] [] good refl e in
      let read =
        ap (λ x. run_once pods killer x k (record { sent = []; good = true }))
          (sym (append-nil (pods.command.to_bytes command)))
        ∙ served in
      let wrote =
        ap (λ x. ask pods command x l.output) (sym (append-nil (pods.status.to_bytes s))) ∙ asked in
      let later : Link K = record {
        server = k';
        requests = [];
        replies = [];
        output = record { sent = l.output.sent ++ pods.command.to_bytes command; good = true };
      } in
      (later, rw (good, requests, replies, same, read, wrote, good) refl, (refl, refl, refl, refl))

  -- The killer behind the streams answers as the killer itself.
  pub remote_call-Sim :
      (action : KillerAction) (id : I) (k : K) (l : Link K)
      → Linked k l
      → Sim (Pair Linked) (perform killer action id k) (remote_call pods killer action id l)
  remote_call-Sim action id k l linked =
      let ((s, k'), e) = answers action id k in
      let (l', f, linked') = remote_call-ok action id k k' s l linked e in rw (e, f) (refl, linked')
