-- ===== src/Socket/AsyncOperation/Transfer.antt =====
-- An operation over all the rounds that the reactor gives it.
use asrt.Base.{
  min, take, drop, inl, inr, ℕ, ◌≡◌, refl, sym, ap, ◌∙◌, Option, none, some, List, [], ◌∷◌, ◌++◌,
  append_assoc, All, arith, subst,
}
use asrt.ErrorCode.{Result, ok, err}
use asrt.NetBuffer.{BufferView, contents, first, advance}
use asrt.NetBuffer.Contents.{first-advance}
use asrt.Socket.AsyncOperation.Rounds.{
  IsKernel, IsErr, bytes_of, IsUnderWay, Round, perform_continuation-Round,
}
use asrt.Socket.AsyncOperation.{
  AsyncOperation, OperationType, Outcome, complete, async_needed, perform_continuation,
  on_continuation,
}

-- `moved` are the bytes that the kernel has handled, in order.
pub record Progress (H : Type 0) : Type 0 where
  pub moved : List ℕ
  pub operation : AsyncOperation H ℕ
  pub notified : Option (Option H × Result ℕ)

-- The bytes that a round over the view moves.
abbrev pub chunk : List ℕ → BufferView → ℕ → List ℕ
chunk memory v handled = contents memory (first handled v)

-- The bytes that the kernel moves when it is asked about a view; of an empty view there are none.
abbrev pub kernel_moves : List ℕ → (BufferView → Result ℕ) → BufferView → List ℕ
kernel_moves memory kernel v = chunk memory v (bytes_of (kernel v))

-- What has been moved so far, and what is left: after a completion with `ok` the whole buffer has been
-- moved; otherwise the bytes moved and those of the view that is left make up the buffer.
abbrev pub Moves :
    {H : Type 0} → List ℕ → List ℕ → List ℕ → Option H → Option (Option H × Result ℕ) → Type 0
Moves whole moved left handler none = moved ++ left ≡ whole
Moves whole moved left handler (some (h, ok n)) = (moved ≡ whole) × (h ≡ handler)
Moves whole moved left handler (some (h, err error)) = (moved ++ left ≡ whole) × (h ≡ handler)

parts :
    (memory : List ℕ) (v : BufferView) (n : ℕ)
    → chunk memory v n ++ contents memory (advance n v) ≡ contents memory v
parts memory v n = (first-advance n 0 memory v).0

chunk_all : (memory : List ℕ) (v : BufferView) → chunk memory v v.size ≡ contents memory v
unfolding contents first
chunk_all memory v =
    let e : min v.size v.size ≡ v.size = omega arith in
    ap (λ (k : ℕ). take k (drop v.start memory)) e

chunk_zero : (memory : List ℕ) (v : BufferView) → chunk memory v 0 ≡ []
unfolding contents first
chunk_zero memory v =
    let e : min 0 v.size ≡ 0 = omega arith in ap (λ (k : ℕ). take k (drop v.start memory)) e

join_left :
    (memory : List ℕ) (v : BufferView) (n : ℕ) (moved left : List ℕ)
    → moved ++ left ≡ contents memory (advance n v)
    → (chunk memory v n ++ moved) ++ left ≡ contents memory v
join_left memory v n moved left h =
    append_assoc (chunk memory v n) moved left
    ∙ ap (λ r. chunk memory v n ++ r) h
    ∙ parts memory v n

module _ {H : Type 0} where
  -- The rounds of the reactor's context, one for each answer of the kernel, until the completion.
  unfoldable pub transfer :
      OperationType → List ℕ → List (BufferView → Result ℕ) → AsyncOperation H ℕ → Progress H
  unfolding perform_continuation
  transfer op_type memory [] op = record { moved = []; operation = op; notified = none }
  transfer op_type memory (kernel ∷ kernels) op = elim (perform_continuation op_type kernel op) [
    | none ↦ record { moved = []; operation = op; notified = none }
    | some o ↦ elim o.status [
      | complete ↦ record {
        moved = kernel_moves memory kernel op.buffer_view;
        operation = o.after;
        notified = o.notified;
      }
      | async_needed ↦
          let rest = transfer op_type memory kernels o.after in
          record rest { moved = kernel_moves memory kernel op.buffer_view ++ rest.moved }
    ]
  ]

  pub transfer-complete :
      (op_type : OperationType) (memory : List ℕ) (kernel : BufferView → Result ℕ)
      (kernels : List (BufferView → Result ℕ)) (op : AsyncOperation H ℕ) (o : Outcome H ℕ)
      → perform_continuation op_type kernel op ≡ some o
      → bytes_of (kernel op.buffer_view) ≡ o.handled
      → o.status ≡ complete
      → transfer op_type memory (kernel ∷ kernels) op ≡ record {
        moved = chunk memory op.buffer_view o.handled;
        operation = o.after;
        notified = o.notified;
      }
  unfolding transfer
  transfer-complete op_type memory kernel kernels op o e counted status = ground arith

  pub transfer-async_needed :
      (op_type : OperationType) (memory : List ℕ) (kernel : BufferView → Result ℕ)
      (kernels : List (BufferView → Result ℕ)) (op : AsyncOperation H ℕ) (o : Outcome H ℕ)
      → perform_continuation op_type kernel op ≡ some o
      → bytes_of (kernel op.buffer_view) ≡ o.handled
      → o.status ≡ async_needed
      → transfer op_type memory (kernel ∷ kernels) op
        ≡ record (transfer op_type memory kernels o.after) {
          moved =
              chunk memory op.buffer_view o.handled
              ++ (transfer op_type memory kernels o.after).moved;
        }
  unfolding transfer
  transfer-async_needed op_type memory kernel kernels op o e counted status = ground arith

  Moves-chunk :
      (memory : List ℕ) (v : BufferView) (n : ℕ) (moved left : List ℕ) (handler : Option H)
      (notified : Option (Option H × Result ℕ))
      → Moves (contents memory (advance n v)) moved left handler notified
      → Moves (contents memory v) (chunk memory v n ++ moved) left handler notified
  Moves-chunk memory v n moved left handler none h = join_left memory v n moved left h
  Moves-chunk memory v n moved left handler (some (g, ok k)) (h, same) =
      (ap (λ r. chunk memory v n ++ r) h ∙ parts memory v n, same)
  Moves-chunk memory v n moved left handler (some (g, err error)) (h, same) =
      (join_left memory v n moved left h, same)

  abbrev Holds : List ℕ → AsyncOperation H ℕ → Progress H → Type 0
  Holds memory op p =
      Moves (contents memory op.buffer_view) p.moved (contents memory p.operation.buffer_view)
        op.completion_handler p.notified

  Moves-err :
      (whole left : List ℕ) (handler : Option H) (result : Result ℕ)
      → IsErr result
      → left ≡ whole
      → Moves whole [] left handler (some (handler, result))
  Moves-err whole left handler (ok n) bad h = elim bad [ ]
  Moves-err whole left handler (err error) bad h = (h, refl)

  Holds-Round :
      (op_type : OperationType) (memory : List ℕ) (kernel : BufferView → Result ℕ)
      (kernels : List (BufferView → Result ℕ)) (op : AsyncOperation H ℕ) (o : Outcome H ℕ)
      → (IsUnderWay o.after → Holds memory o.after (transfer op_type memory kernels o.after))
      → perform_continuation op_type kernel op ≡ some o
      → bytes_of (kernel op.buffer_view) ≡ o.handled
      → IsUnderWay op
      → Round op o
      → Holds memory op (transfer op_type memory (kernel ∷ kernels) op)
  unfolding on_continuation
  Holds-Round op_type memory kernel kernels op o ih e counted h (inl (status, _, after, _)) =
      let p = transfer op_type memory kernels o.after in
      let under_way : IsUnderWay o.after = (
        ap (λ (a : AsyncOperation H ℕ). a.operation_ongoing) after,
        ap (λ (a : AsyncOperation H ℕ). a.is_exhaustive) after ∙ h.1,
      ) in
      let moves : Moves (contents memory (advance o.handled op.buffer_view)) p.moved
          (contents memory p.operation.buffer_view) op.completion_handler p.notified =
        subst
          (λ (a : AsyncOperation H ℕ).
            Moves (contents memory a.buffer_view) p.moved (contents memory p.operation.buffer_view)
              a.completion_handler p.notified)
          after (ih under_way) in
      subst (Holds memory op)
        (sym (transfer-async_needed op_type memory kernel kernels op o e counted status))
        (Moves-chunk memory op.buffer_view o.handled p.moved
          (contents memory p.operation.buffer_view) op.completion_handler p.notified moves)
  Holds-Round op_type memory kernel kernels op o ih e counted h (inr (inl (status, all, note))) =
      subst (Holds memory op)
        (sym (transfer-complete op_type memory kernel kernels op o e counted status))
        (rw (note, all) (chunk_all memory op.buffer_view, refl))
  Holds-Round op_type memory kernel kernels op o ih e counted h
        (inr (inr (status, nil, same, note, bad))) =
      subst (Holds memory op)
        (sym (transfer-complete op_type memory kernel kernels op o e counted status))
        (rw note (
          subst
            (λ (m : List ℕ).
              Moves (contents memory op.buffer_view) m (contents memory o.after.buffer_view)
                op.completion_handler (some (op.completion_handler, o.after.completion_result)))
            (sym (ap (chunk memory op.buffer_view) nil ∙ chunk_zero memory op.buffer_view))
            (Moves-err (contents memory op.buffer_view) (contents memory o.after.buffer_view)
              op.completion_handler o.after.completion_result bad (ap (contents memory) same))))

  -- Exhaustive operations under way: whatever the kernel answers in whatever number of rounds.
  pub transfer-Moves :
      (op_type : OperationType) (memory : List ℕ) (kernels : List (BufferView → Result ℕ))
      (op : AsyncOperation H ℕ)
      → All IsKernel kernels
      → IsUnderWay op
      → let p = transfer op_type memory kernels op in
        Moves
          (contents memory op.buffer_view)
          p.moved
          (contents memory p.operation.buffer_view)
          op.completion_handler
          p.notified
  transfer-Moves op_type memory [] op fair h = unfold transfer in refl
  transfer-Moves op_type memory (kernel ∷ kernels) op (fair, fairs) h =
      let (o, e, counted, round) = perform_continuation-Round op_type kernel op fair h in
      Holds-Round op_type memory kernel kernels op o
        (transfer-Moves op_type memory kernels o.after fairs) e counted h round
