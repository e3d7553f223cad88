-- ===== src/Broker/Communicate/Flood.antt =====
-- A solution that prints without an end: the inner loop of `communicate` looks at no clock.
use deprecated_yandex_contes.Base.{
  ℕ, true, false, List, [], ◌∷◌, Bytes, ◌==◌, ok, err, pending, ◌≡◌, refl, ap, ℤ, ltb_ℤ,
}
use deprecated_yandex_contes.Tokenizer.{continue, TokenizerLibrary, tokenize}
use deprecated_yandex_contes.Broker.Communicate.{
  ReadAnswer, got, read_again, read_failed, Reader, is_continue, file_answer, read_chunk, read_loop,
  Event, Poll, polled, Round, Ends, Comm, wait, handle, react, run_round, comm_loop,
}

-- Each call of `read` brings output, of this kind.
abbrev pub Prints : (Bytes → Type 0) → List ReadAnswer → Type 0
Prints Dull [] = Unit
Prints Dull (got [] ∷ answers) = ⊥
Prints Dull (got (b ∷ bs) ∷ answers) = Dull (b ∷ bs) × Prints Dull answers
Prints Dull (read_again ∷ answers) = ⊥
Prints Dull (read_failed ∷ answers) = ⊥

-- In these states the tokenizer waits for more behind such output, and is in one of them again.
abbrev pub Waits : {T : Type 0} → TokenizerLibrary T → (T → Type 0) → (Bytes → Type 0) → Type 0
Waits {T} lib Idle Dull =
    (t : T) (chunk : Bytes)
    → Idle t
    → Dull chunk
    → (t' : T) × (n : ℕ) × (tokenize lib t chunk
        ≡ ok (t', record { status = continue; accepted = n }))
      × Idle t'

module _ {T : Type 0} (lib : TokenizerLibrary T) (Idle : T → Type 0) (Dull : Bytes → Type 0)
    (waits : Waits lib Idle Dull) where
  read_loop-flooded :
      (answers : List ReadAnswer) (rd : Reader T)
      → rd.status ≡ continue
      → Idle rd.tokenizer
      → Prints Dull answers
      → read_loop lib rd answers ≡ err pending
  unfolding read_loop read_chunk file_answer
  read_loop-flooded [] rd st idle prints = rw (ap is_continue st) refl
  read_loop-flooded (got [] ∷ answers) rd st idle prints = absurd prints
  read_loop-flooded (got (b ∷ bs) ∷ answers) rd st idle (dull, prints) =
      let (t', n, p, idle') = waits rd.tokenizer (b ∷ bs) idle dull in
      rw (read_loop, ap is_continue st, p) (read_loop-flooded answers _ refl idle' prints)
  read_loop-flooded (read_again ∷ answers) rd st idle prints = absurd prints
  read_loop-flooded (read_failed ∷ answers) rd st idle prints = absurd prints

  -- Behind an event at the read end before the time limit, the loop of communicate goes on as long
  -- as every read brings output behind which the tokenizer waits, whatever the limit is and
  -- whatever the clock reads meanwhile: with any number of such reads it has not returned.
  pub comm_loop-flooded :
      (ends : Ends) (until : ℤ) (c : Comm T) (e : Event) (es : List Event) (now later : ℤ)
      (polls : List Poll) (rounds : List Round)
      → ltb_ℤ now until ≡ true
      → (e.fd == ends.in_fd) ≡ false
      → (e.fd == ends.out_fd) ≡ true
      → e.epollin ≡ true
      → c.reader.status ≡ continue
      → Idle c.reader.tokenizer
      → Prints Dull e.reads
      → comm_loop lib ends until c
          ((record { now = now; polls = polled (e ∷ es) later ∷ polls }) ∷ rounds)
        ≡ err pending
  unfolding comm_loop run_round wait react handle
  comm_loop-flooded ends until c e es now later polls rounds soon not_in at_out readable st idle
        prints =
      rw
        (
          comm_loop,
          ap is_continue st,
          soon,
          handle,
          not_in,
          at_out,
          readable,
          read_loop-flooded e.reads c.reader st idle prints,
        )
        refl
