-- ===== src/Text/Archive/Progress.antt =====
-- Reading a command ends, and takes input.
use deprecated_yandex_contes.Base.{
  ℕ, zero, suc, ◌≤◌, ◌<◌, true, false, List, [], ◌∷◌, ◌++◌, length, if◌then◌else◌, ok, err,
  >>=-eq-ok, >>=-ne-err, Result-cases, pending, ◌≡◌, ◌≢◌, ◌⊎◌, inl, inr, arith,
}
use deprecated_yandex_contes.Text.Streams.{IStream}
use deprecated_yandex_contes.Text.Casts.{LexicalCast}
use deprecated_yandex_contes.Text.Escape.Progress.{unescape-Takes, unescape-ne-pending}
use deprecated_yandex_contes.Broker.Types.{Casts, Command}
use deprecated_yandex_contes.Text.Archive.{
  InputArchive, open_input, load, load_items, load_vector, recv_command,
}

-- The bytes left, as long as the line goes on.
abbrev left : InputArchive → ℕ
left ia = if ia.end then 0 else suc (length ia.input.rest)

module _ {A : Type 0} (cast : LexicalCast A) where
  load-Takes :
      (ia : InputArchive) {a : A} {ia' : InputArchive}
      → load cast ia ≡ ok (a, ia')
      → (length ia'.input.rest ≤ length ia.input.rest)
        × (left ia' < left ia)
        × (ia.end ≡ false)
        × ((ia'.end ≡ true) ⊎ (length ia'.input.rest < length ia.input.rest))
  unfolding load
  load-Takes ia e = grind (arith, unescape-Takes)

  load-ne-pending : (ia : InputArchive) → load cast ia ≢ err pending
  unfolding load
  load-ne-pending ia = ground (arith, unescape-ne-pending ia.input ia.end)

  load_items-ne-pending :
      (fuel : ℕ) (v : List A) (ia : InputArchive)
      → left ia < fuel
      → load_items fuel cast v ia ≢ err pending
  unfolding load_items
  load_items-ne-pending zero v ia h = absurd (omega arith)
  load_items-ne-pending (suc fuel) v ia h = elim (Result-cases (load cast ia)) [
    | inl (e, p) ↦ ground (arith, load-ne-pending ia)
    | inr ((a, ia'), p) ↦
        ground (arith, load-Takes ia p, load_items-ne-pending fuel (v ++ a ∷ []) ia')
  ]

  load_items-le :
      (fuel : ℕ) (v : List A) (ia : InputArchive) {r : List A × InputArchive}
      → load_items fuel cast v ia ≡ ok r
      → length r.1.input.rest ≤ length ia.input.rest
  unfolding load_items
  load_items-le zero v ia e = cc
  load_items-le (suc fuel) v ia {r} e = elim (Result-cases (load cast ia)) [
    | inl (_, p) ↦ ground arith
    | inr ((a, ia'), p) ↦
        ground (arith, load-Takes ia p, load_items-le fuel (v ++ a ∷ []) ia' {r = r})
  ]

  load_vector-ne-pending : (ia : InputArchive) → load_vector cast ia ≢ err pending
  unfolding load_vector
  load_vector-ne-pending ia =
      ground (arith, load_items-ne-pending (suc (suc (length ia.input.rest))) [] ia)

  load_vector-le :
      (ia : InputArchive) {r : List A × InputArchive}
      → load_vector cast ia ≡ ok r
      → length r.1.input.rest ≤ length ia.input.rest
  unfolding load_vector
  load_vector-le ia {r} e = grind (arith, load_items-le)

module _ (c : Casts) (input : IStream) where
  -- Whatever the input, reading a command returns or throws within the fuel of its loop.
  pub recv_command-ne-pending : recv_command c input ≢ err pending
  unfolding recv_command
  recv_command-ne-pending =
      >>=-ne-err pending (load c.type_cast (open_input input)) _
        (load-ne-pending c.type_cast (open_input input))
        λ t. >>=-ne-err pending (load c.id_cast t.1) _ (load-ne-pending c.id_cast t.1) λ i.
          >>=-ne-err pending (load_vector c.text_cast i.1) _
            (load_vector-ne-pending c.text_cast i.1) λ v. λ p. cc

  -- A command that is read has taken at least a byte of the input.
  pub recv_command-lt :
      {r : Command × IStream} → recv_command c input ≡ ok r → length r.1.rest < length input.rest
  unfolding recv_command
  recv_command-lt e =
      let ((type, ia₁), p, e₁) = >>=-eq-ok (load c.type_cast (open_input input)) _ e in
      let ((id, ia₂), q, e₂) = >>=-eq-ok (load c.id_cast ia₁) _ e₁ in
      let ((args, ia₃), v, e₃) = >>=-eq-ok (load_vector c.text_cast ia₂) _ e₂ in
      ground (
        arith,
        load-Takes c.type_cast (open_input input) p,
        load-Takes c.id_cast ia₁ q,
        load_vector-le c.text_cast ia₂ v,
      )
