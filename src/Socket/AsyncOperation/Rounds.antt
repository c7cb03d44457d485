-- ===== src/Socket/AsyncOperation/Rounds.antt =====
-- One round of an operation in the reactor's context.
use asrt.Base.{ℕ, ◌≤◌, ◌<◌, ◌≡◌, refl, true, none, some, arith, ◌⊎◌}
use asrt.ErrorCode.{Result, ok, err}
use asrt.NetBuffer.{BufferView}
use asrt.Socket.AsyncOperation.{
  AsyncOperation, OperationType, send, receive, Outcome, complete, async_needed, do_perform,
  perform_continuation, on_continuation, continuation, finish_continuation, is_initiation,
  is_receive, completed_with, try_again_later,
}

-- send(2) and recv(2) never claim more bytes than the view has.
abbrev pub IsKernel : (BufferView → Result ℕ) → Type 0
IsKernel kernel = (v : BufferView) (n : ℕ) → kernel v ≡ ok n → n ≤ v.size

abbrev pub IsErr : Result ℕ → Type 0
IsErr (ok n) = ⊥
IsErr (err error) = Unit

-- The bytes that an answer stands for.
abbrev pub bytes_of : Result ℕ → ℕ
bytes_of (ok n) = n
bytes_of (err error) = 0

module _ {H : Type 0} where
  abbrev pub IsUnderWay : AsyncOperation H ℕ → Type 0
  IsUnderWay op = (op.operation_ongoing ≡ true) × (op.is_exhaustive ≡ true)

  -- What one round comes to for an operation that is under way and exhaustive: it goes on with the rest
  -- of the view, it is done, or it fails and has moved nothing.
  abbrev pub Round : AsyncOperation H ℕ → Outcome H ℕ → Type 0
  Round op o =
      ((o.status ≡ async_needed)
        × (o.handled ≤ op.buffer_view.size)
        × (o.after ≡ on_continuation o.handled op)
        × (o.notified ≡ none))
      ⊎ ((o.status ≡ complete)
          × (o.handled ≡ op.buffer_view.size)
          × (o.notified ≡ some (op.completion_handler, ok o.handled)))
      ⊎ ((o.status ≡ complete)
          × (o.handled ≡ 0)
          × (o.after.buffer_view ≡ op.buffer_view)
          × (o.notified ≡ some (op.completion_handler, o.after.completion_result))
          × IsErr o.after.completion_result)

  Round-answer :
      (op_type : OperationType) (kernel : BufferView → Result ℕ) (op : AsyncOperation H ℕ)
      (answer : Result ℕ)
      → kernel op.buffer_view ≡ answer
      → IsKernel kernel
      → IsUnderWay op
      → Round op (
          finish_continuation
            (do_perform op_type continuation op.buffer_view op.is_exhaustive kernel op))
  unfolding do_perform finish_continuation is_initiation is_receive completed_with try_again_later
      on_continuation
  Round-answer send kernel op (ok n) e fair (ongoing, exhaustive) =
      ground (arith, fair op.buffer_view n)
  Round-answer send kernel op (err error) e fair (ongoing, exhaustive) = ground arith
  Round-answer receive kernel op (ok n) e fair (ongoing, exhaustive) =
      ground (arith, fair op.buffer_view n)
  Round-answer receive kernel op (err error) e fair (ongoing, exhaustive) = ground arith

  handled_answer :
      (op_type : OperationType) (kernel : BufferView → Result ℕ) (op : AsyncOperation H ℕ)
      (answer : Result ℕ)
      → kernel op.buffer_view ≡ answer
      → IsKernel kernel
      → IsUnderWay op
      → bytes_of answer
        ≡ (finish_continuation
            (do_perform op_type continuation op.buffer_view op.is_exhaustive kernel op)).handled
  unfolding do_perform finish_continuation is_initiation is_receive completed_with try_again_later
      on_continuation
  handled_answer send kernel op (ok n) e fair (ongoing, exhaustive) = ground arith
  handled_answer send kernel op (err error) e fair (ongoing, exhaustive) = ground arith
  handled_answer receive kernel op (ok n) e fair (ongoing, exhaustive) =
      ground (arith, fair op.buffer_view n)
  handled_answer receive kernel op (err error) e fair (ongoing, exhaustive) = ground arith

  -- The operation counts what the kernel has moved.
  pub bytes_of-handled :
      (op_type : OperationType) (kernel : BufferView → Result ℕ) (op : AsyncOperation H ℕ)
      → IsKernel kernel
      → IsUnderWay op
      → bytes_of (kernel op.buffer_view)
        ≡ (finish_continuation
            (do_perform op_type continuation op.buffer_view op.is_exhaustive kernel op)).handled
  bytes_of-handled op_type kernel op = handled_answer op_type kernel op (kernel op.buffer_view) refl

  pub perform_continuation-Round :
      (op_type : OperationType) (kernel : BufferView → Result ℕ) (op : AsyncOperation H ℕ)
      → IsKernel kernel
      → IsUnderWay op
      → (o : Outcome H ℕ) × (perform_continuation op_type kernel op ≡ some o)
        × (bytes_of (kernel op.buffer_view) ≡ o.handled)
        × Round op o
  unfolding perform_continuation
  perform_continuation-Round op_type kernel op fair (ongoing, exhaustive) = (
    finish_continuation (do_perform op_type continuation op.buffer_view op.is_exhaustive kernel op),
    ground arith,
    bytes_of-handled op_type kernel op fair (ongoing, exhaustive),
    Round-answer op_type kernel op (kernel op.buffer_view) refl fair (ongoing, exhaustive),
  )

  -- A round in which the kernel handles some bytes but not necessarily all.
  pub Round-progress :
      (op_type : OperationType) (kernel : BufferView → Result ℕ) (op : AsyncOperation H ℕ) (n : ℕ)
      → kernel op.buffer_view ≡ ok n
      → 0 < n
      → IsKernel kernel
      → IsUnderWay op
      → let o =
          finish_continuation
            (do_perform op_type continuation op.buffer_view op.is_exhaustive kernel op) in
        ((o.status ≡ async_needed) × (n < op.buffer_view.size) × (o.after ≡ on_continuation n op))
        ⊎ ((o.status ≡ complete) × (o.notified ≡ some (op.completion_handler, ok n)))
  unfolding do_perform finish_continuation is_initiation is_receive completed_with try_again_later
      on_continuation
  Round-progress send kernel op n e some_bytes fair (ongoing, exhaustive) =
      ground (arith, fair op.buffer_view n)
  Round-progress receive kernel op n e some_bytes fair (ongoing, exhaustive) =
      ground (arith, fair op.buffer_view n)
