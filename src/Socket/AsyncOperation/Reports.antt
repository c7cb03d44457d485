-- ===== src/Socket/AsyncOperation/Reports.antt =====
-- What the handlers of operations are told.
use asrt.Base.{ℕ, ◌-◌, ◌<◌, ◌≡◌, ◌≢◌, true, false, Bool, none, some, List, [], ◌∷◌, arith, ◌⊎◌}
use asrt.ErrorCode.{ErrorCode, Result, ok, err, async_operation_in_progress}
use asrt.NetBuffer.{BufferView, advance}
use asrt.Socket.AsyncOperation.{
  AsyncOperation, OperationType, send, receive, Outcome, complete, async_needed, do_perform,
  start_only, perform_initiation, perform_continuation, on_continuation, on_initiation,
  finish_continuation, finish_initiation, is_initiation, is_receive, completed_with,
  try_again_later, do_connect_continuation, connect_continuation, connect_initiation, do_connect,
  continuation,
}
use asrt.Socket.AsyncOperation.Transfer.{transfer}

size_lem : (n : ℕ) (v : BufferView) → n < v.size → (advance n v).size ≡ v.size - n
unfolding advance
size_lem n v less = ground arith

module _ {H : Type 0} where
  -- While an operation is under way, another one that may be tried at once is refused: it completes with
  -- async_operation_in_progress, the kernel is not asked, and the first operation keeps its view, handler
  -- and mode. Another one that may not be tried at once is taken, and the handler and the view of the
  -- first one are lost.
  pub second_initiation :
      (op_type : OperationType) (is_exhaustive : Bool) (v : BufferView) (h : H)
      (kernel : BufferView → Result ℕ) (op : AsyncOperation H ℕ)
      → op.operation_ongoing ≡ true
      → let refused = perform_initiation op_type true is_exhaustive v h kernel op in
        let taken = perform_initiation op_type false is_exhaustive v h kernel op in
        ((refused.status ≡ complete)
          × (refused.notified ≡ some (some h, err async_operation_in_progress))
          × (refused.after ≡ record op { completion_result = err async_operation_in_progress }))
        × ((taken.status ≡ async_needed)
            × (taken.notified ≡ none)
            × (taken.after.completion_handler ≡ some h)
            × (taken.after.buffer_view ≡ v))
  unfolding perform_initiation do_perform finish_initiation is_initiation completed_with start_only
      on_initiation advance
  second_initiation op_type is_exhaustive v h kernel op ongoing = ground arith

  -- An exhaustive operation under way that the kernel serves in two rounds, first with `n` of the bytes
  -- and then with the others, reports the bytes of the second round and not those of the operation.
  pub reports_last_round :
      (op_type : OperationType) (memory : List ℕ) (n : ℕ)
      (first_round second_round : BufferView → Result ℕ) (op : AsyncOperation H ℕ)
      → (op.operation_ongoing ≡ true) × (op.is_exhaustive ≡ true)
      → 0 < n
      → n < op.buffer_view.size
      → first_round op.buffer_view ≡ ok n
      → second_round (advance n op.buffer_view) ≡ ok (op.buffer_view.size - n)
      → (transfer op_type memory (first_round ∷ second_round ∷ []) op).notified
        ≡ some (op.completion_handler, ok (op.buffer_view.size - n))
  unfolding transfer perform_continuation do_perform finish_continuation is_initiation is_receive
      completed_with try_again_later on_continuation
  reports_last_round send memory n a b op (ongoing, exhaustive) positive less e f =
      ground (arith, size_lem n op.buffer_view less)
  reports_last_round receive memory n a b op (ongoing, exhaustive) positive less e f =
      ground (arith, size_lem n op.buffer_view less)

  -- The reactor's round of a connect that is under way, by the value of SO_ERROR: 0 reports success;
  -- EAGAIN and EINPROGRESS leave it under way, unreported; any other value reports what errno holds,
  -- whatever the value is.
  pub connect_continuation_lem :
      (value : ℕ) (latest : ErrorCode) (op : AsyncOperation H (Unit {0}))
      → op.operation_ongoing ≡ true
      → (o : Outcome H (Unit {0})) × (connect_continuation (ok value) latest op ≡ some o)
        × (((value ≡ 0)
              × (o.notified ≡ some (op.completion_handler, ok tt))
              × (o.after.operation_ongoing ≡ false))
            ⊎ (((value ≡ 11) ⊎ (value ≡ 115))
                × (o.notified ≡ none)
                × (o.after ≡ on_continuation 0 op))
            ⊎ ((value ≢ 0)
                × (value ≢ 11)
                × (value ≢ 115)
                × (o.notified ≡ some (op.completion_handler, err latest))
                × (o.after.operation_ongoing ≡ false)))
  unfolding connect_continuation do_connect_continuation finish_continuation completed_with
      try_again_later
  connect_continuation_lem value latest op ongoing = (
    finish_continuation (do_connect_continuation (ok value) latest op),
    ground arith,
    ground arith,
  )

  pub connect_initiation_lem :
      (v : BufferView) (h : H) (answer : Result (Unit {0})) (op : AsyncOperation H (Unit {0}))
      → let o = connect_initiation v h answer op in
        ((o.status ≡ complete) × (o.after.operation_ongoing ≡ op.operation_ongoing))
        ⊎ ((o.status ≡ async_needed) × (o.after.operation_ongoing ≡ true))
  unfolding connect_initiation do_connect finish_initiation on_initiation completed_with
      try_again_later
  connect_initiation_lem v h answer op = ground arith

  -- The assertion of `Perform` holds for an operation that is under way.
  pub connect_continuation-some :
      (option_sockerror : Result ℕ) (latest : ErrorCode) (op : AsyncOperation H (Unit {0}))
      → op.operation_ongoing ≡ true
      → (o : Outcome H (Unit {0})) × (connect_continuation option_sockerror latest op ≡ some o)
        × ((o.status ≡ complete) ⊎ ((o.status ≡ async_needed) × (o.after.operation_ongoing ≡ true)))
  unfolding connect_continuation do_connect_continuation finish_continuation completed_with
      try_again_later on_continuation
  connect_continuation-some option_sockerror latest op ongoing = (
    finish_continuation (do_connect_continuation option_sockerror latest op),
    ground arith,
    ground arith,
  )

  pub perform_continuation-some :
      (op_type : OperationType) (kernel : BufferView → Result ℕ) (op : AsyncOperation H ℕ)
      → op.operation_ongoing ≡ true
      → (o : Outcome H ℕ) × (perform_continuation op_type kernel op ≡ some o)
  unfolding perform_continuation
  perform_continuation-some op_type kernel op ongoing = (
    finish_continuation (do_perform op_type continuation op.buffer_view op.is_exhaustive kernel op),
    ground arith,
  )

  pub second_connect :
      (v : BufferView) (h : H) (answer : Result (Unit {0})) (op : AsyncOperation H (Unit {0}))
      → op.operation_ongoing ≡ true
      → let o = connect_initiation v h answer op in
        (o.status ≡ complete)
        × (o.notified ≡ some (some h, err async_operation_in_progress))
        × (o.after ≡ record op { completion_result = err async_operation_in_progress })
  unfolding connect_initiation do_connect finish_initiation completed_with
  second_connect v h answer op ongoing = ground arith
