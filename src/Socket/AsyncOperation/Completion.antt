-- ===== src/Socket/AsyncOperation/Completion.antt =====
-- That exhaustive operations complete, and what they report.
use asrt.Base.{
  ℕ, suc, ◌≤◌, ◌<◌, ◌≡◌, refl, ap, ◌∙◌, true, some, List, [], ◌∷◌, All, length, arith, inl, inr,
  ◌⊎◌,
}
use asrt.ErrorCode.{Result, ok}
use asrt.NetBuffer.{BufferView, contents, advance}
use asrt.Socket.AsyncOperation.{
  AsyncOperation, OperationType, Outcome, complete, async_needed, do_perform, perform_continuation,
  on_continuation, finish_continuation, continuation,
}
use asrt.Socket.AsyncOperation.Rounds.{
  IsKernel, IsUnderWay, Round-progress, bytes_of, bytes_of-handled,
}
use asrt.Socket.AsyncOperation.Transfer.{
  Progress, Moves, transfer, transfer-Moves, transfer-complete, transfer-async_needed,
}

-- The kernel handles at least one byte of every view that has one.
abbrev pub Progresses : (BufferView → Result ℕ) → Type 0
Progresses kernel = (v : BufferView) → 0 < v.size → (n : ℕ) × (kernel v ≡ ok n) × (0 < n)

-- The rest of the view behind a round that has left some of it.
rest_size :
    (n rounds : ℕ) (v : BufferView)
    → 0 < n
    → n < v.size
    → v.size ≤ suc rounds
    → (0 < (advance n v).size) × ((advance n v).size ≤ rounds)
unfolding advance
rest_size n rounds v positive less enough = ground arith

module _ {H : Type 0} where
  abbrev IsDone : AsyncOperation H ℕ → Progress H → Type 0
  IsDone op p = (n : ℕ) × (p.notified ≡ some (op.completion_handler, ok n))

  ongoing_round :
      (op_type : OperationType) (kernel : BufferView → Result ℕ) (op : AsyncOperation H ℕ)
      → IsUnderWay op
      → perform_continuation op_type kernel op
        ≡ some (
            finish_continuation
              (do_perform op_type continuation op.buffer_view op.is_exhaustive kernel op))
  unfolding perform_continuation
  ongoing_round op_type kernel op (ongoing, exhaustive) = ground arith

  IsDone-round :
      (op_type : OperationType) (memory : List ℕ) (kernel : BufferView → Result ℕ)
      (kernels : List (BufferView → Result ℕ)) (op : AsyncOperation H ℕ) (o : Outcome H ℕ) (n : ℕ)
      → perform_continuation op_type kernel op ≡ some o
      → bytes_of (kernel op.buffer_view) ≡ o.handled
      → (n < op.buffer_view.size
          → IsDone (on_continuation n op) (transfer op_type memory kernels (on_continuation n op)))
      → ((o.status ≡ async_needed) × (n < op.buffer_view.size) × (o.after ≡ on_continuation n op))
        ⊎ ((o.status ≡ complete) × (o.notified ≡ some (op.completion_handler, ok n)))
      → IsDone op (transfer op_type memory (kernel ∷ kernels) op)
  unfolding on_continuation
  IsDone-round op_type memory kernel kernels op o n e counted ih (inl (status, less, after)) =
      let (k, done) = ih less in
      (
        k,
        ap (λ (p : Progress H). p.notified)
              (transfer-async_needed op_type memory kernel kernels op o e counted status)
            ∙ ap (λ (a : AsyncOperation H ℕ). (transfer op_type memory kernels a).notified) after
            ∙ done,
      )
  IsDone-round op_type memory kernel kernels op o n e counted ih (inr (status, note)) = (
    n,
    ap (λ (p : Progress H). p.notified)
          (transfer-complete op_type memory kernel kernels op o e counted status)
        ∙ note,
  )

  transfer-IsDone :
      (op_type : OperationType) (memory : List ℕ) (kernels : List (BufferView → Result ℕ))
      (op : AsyncOperation H ℕ)
      → All IsKernel kernels
      → All Progresses kernels
      → IsUnderWay op
      → 0 < op.buffer_view.size
      → op.buffer_view.size ≤ length kernels
      → IsDone op (transfer op_type memory kernels op)
  unfolding on_continuation
  transfer-IsDone op_type memory [] op fairs go h some_bytes enough = absurd (omega arith)
  transfer-IsDone op_type memory (kernel ∷ kernels) op (fair, fairs) (go, goes) h some_bytes
        enough =
      let (n, e, positive) = go op.buffer_view some_bytes in
      IsDone-round op_type memory kernel kernels op
        (finish_continuation
          (do_perform op_type continuation op.buffer_view op.is_exhaustive kernel op))
        n (ongoing_round op_type kernel op h) (bytes_of-handled op_type kernel op fair h)
        (λ less.
          let (left, few) = rest_size n (length kernels) op.buffer_view positive less enough in
          transfer-IsDone op_type memory kernels (on_continuation n op) fairs goes (refl, h.1) left
            few)
        (Round-progress op_type kernel op n e positive fair h)

  -- An exhaustive operation that is under way over a view of at least one byte: with as many rounds as the
  -- view has bytes, in each of which the kernel handles at least one byte of what it is offered, it
  -- completes with `ok`, and has then moved the whole view.
  pub transfer_completes :
      (op_type : OperationType) (memory : List ℕ) (kernels : List (BufferView → Result ℕ))
      (op : AsyncOperation H ℕ)
      → All IsKernel kernels
      → All Progresses kernels
      → (op.operation_ongoing ≡ true) × (op.is_exhaustive ≡ true)
      → 0 < op.buffer_view.size
      → op.buffer_view.size ≤ length kernels
      → let p = transfer op_type memory kernels op in
        (n : ℕ) × (p.notified ≡ some (op.completion_handler, ok n))
        × (p.moved ≡ contents memory op.buffer_view)
  transfer_completes op_type memory kernels op fairs goes h some_bytes enough =
      let p = transfer op_type memory kernels op in
      let (n, note) = transfer-IsDone op_type memory kernels op fairs goes h some_bytes enough in
      let moves : Moves (contents memory op.buffer_view) p.moved
          (contents memory p.operation.buffer_view) op.completion_handler
          (some (op.completion_handler, ok n)) =
        rw note at (transfer-Moves op_type memory kernels op fairs h) in
      (n, note, moves.0)
