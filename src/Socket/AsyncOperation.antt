-- ===== src/Socket/AsyncOperation.antt =====
-- include/asrt/socket/async_operation.hpp: one asynchronous send, receive or connect of a socket.
-- What the kernel answers to a view is a function of the view; what `on_immediate` is called with is
-- part of the result. `H` is the type of handlers and `R` that of the values reported.
pub mod Rounds
pub mod Transfer
pub mod Speculative
pub mod Completion
pub mod Reports
pub mod Tests
use asrt.Base.{ℕ, Bool, true, false, not, ◌&&◌, ◌||◌, Option, none, some, ◌==◌, if◌then◌else◌}
use asrt.ErrorCode.{
  ErrorCode, Result, ok, err, is_busy, is_connect_in_progress, async_operation_in_progress,
  end_of_file,
}
use asrt.NetBuffer.{BufferView, advance}

pub data OperationType : Type 0 where
  send receive : OperationType

pub data OperationContext : Type 0 where
  initiation continuation : OperationContext

pub data OperationStatus : Type 0 where
  complete async_needed : OperationStatus

pub record AsyncOperation (H R : Type 0) : Type 0 where
  pub total_bytes : ℕ
  pub operation_ongoing : Bool
  pub is_exhaustive : Bool
  pub buffer_view : BufferView
  pub completion_handler : Option H
  pub completion_result : Result R

abbrev no_view : BufferView
no_view = record { start = 0; size = 0 }

-- A new operation, which is also what `Reset` leaves; `value` is R's default.
abbrev pub reset : {H R : Type 0} → R → AsyncOperation H R
reset value = record {
  total_bytes = 0;
  operation_ongoing = false;
  is_exhaustive = false;
  buffer_view = no_view;
  completion_handler = none;
  completion_result = ok value;
}

is_initiation : OperationContext → Bool
is_initiation initiation = true
is_initiation continuation = false

is_receive : OperationType → Bool
is_receive receive = true
is_receive send = false

pub record Performed (H R : Type 0) : Type 0 where
  pub op_status : OperationStatus
  pub handled_bytes : ℕ
  pub operation : AsyncOperation H R

-- The result of `Perform`, with the arguments of the call of `on_immediate`, if it is called.
pub record Outcome (H R : Type 0) : Type 0 where
  pub status : OperationStatus
  pub handled : ℕ
  pub after : AsyncOperation H R
  pub notified : Option (Option H × Result R)

module _ {H R : Type 0} where
  -- Completed with a result.
  completed_with : ℕ → Result R → AsyncOperation H R → Performed H R
  completed_with handled_bytes result op = record {
    op_status = complete;
    handled_bytes = handled_bytes;
    operation = record op { completion_result = result };
  }

  try_again_later : ℕ → AsyncOperation H R → Performed H R
  try_again_later handled_bytes op = record {
    op_status = async_needed;
    handled_bytes = handled_bytes;
    operation = op;
  }

  unfoldable pub on_initiation : H → BufferView → Bool → ℕ → AsyncOperation H R → AsyncOperation H R
  on_initiation user_callback buff_view is_exhaustive bytes_handled op = record {
    total_bytes = buff_view.size;
    operation_ongoing = true;
    is_exhaustive = is_exhaustive;
    buffer_view = advance bytes_handled buff_view;
    completion_handler = some user_callback;
    completion_result = op.completion_result;
  }

  unfoldable pub on_continuation : ℕ → AsyncOperation H R → AsyncOperation H R
  on_continuation bytes_handled op = record op {
    operation_ongoing = true;
    buffer_view = advance bytes_handled op.buffer_view;
  }

  -- `Perform` behind `DoPerform`, in the reactor's context. `on_immediate` gets references to the stored
  -- handler and result, which stay in place.
  unfoldable pub finish_continuation : Performed H R → Outcome H R
  unfolding on_continuation
  finish_continuation p = elim p.op_status [
    | complete ↦ record {
      status = complete;
      handled = p.handled_bytes;
      after = record p.operation { operation_ongoing = false };
      notified = some (p.operation.completion_handler, p.operation.completion_result);
    }
    | async_needed ↦ record {
      status = async_needed;
      handled = p.handled_bytes;
      after = on_continuation p.handled_bytes p.operation;
      notified = none;
    }
  ]

  -- `Perform` behind the speculative `DoPerform`, in the context that starts the operation.
  finish_initiation : BufferView → H → Bool → Performed H R → Outcome H R
  unfolding on_initiation
  finish_initiation buff_view user_callback is_exhaustive p = elim p.op_status [
    | complete ↦ record {
      status = complete;
      handled = p.handled_bytes;
      after = p.operation;
      notified = some (some user_callback, p.operation.completion_result);
    }
    | async_needed ↦ record {
      status = async_needed;
      handled = p.handled_bytes;
      after = on_initiation user_callback buff_view is_exhaustive p.handled_bytes p.operation;
      notified = none;
    }
  ]

  -- `Perform` of an operation that may not be tried at once.
  start_only : BufferView → H → Bool → AsyncOperation H R → Outcome H R
  unfolding on_initiation
  start_only buff_view user_callback is_exhaustive op = record {
    status = async_needed;
    handled = 0;
    after = on_initiation user_callback buff_view is_exhaustive 0 op;
    notified = none;
  }

module _ {H : Type 0} where
  -- `DoPerform` of a send or a receive.
  unfoldable pub do_perform :
      OperationType
      → OperationContext
      → BufferView
      → Bool
      → (BufferView → Result ℕ)
      → AsyncOperation H ℕ
      → Performed H ℕ
  unfolding is_initiation is_receive completed_with try_again_later
  do_perform op_type op_context buffer_view is_exhaustive kernel op =
      if is_initiation op_context && op.operation_ongoing
      then completed_with 0 (err async_operation_in_progress) op
      else if is_receive op_type && (buffer_view.size == 0)
      then completed_with 0 (ok 0) op
      else elim (kernel buffer_view) [
        | err error ↦
            if is_busy error then try_again_later 0 op else completed_with 0 (err error) op
        | ok bytes_handled ↦
            if bytes_handled == buffer_view.size
            then completed_with bytes_handled (ok bytes_handled) op
            else if is_receive op_type && (bytes_handled == 0)
            then completed_with bytes_handled (err end_of_file) op
            else if is_exhaustive
            then try_again_later bytes_handled op
            else completed_with bytes_handled (ok bytes_handled) op
      ]

  -- `DoPerform` of a connect: the answer of connect(2); then that of getsockopt(2), the value of
  -- SO_ERROR or an error, with what errno holds by then (`latest`).
  unfoldable pub do_connect :
      Result (Unit {0}) → AsyncOperation H (Unit {0}) → Performed H (Unit {0})
  unfolding completed_with try_again_later
  do_connect connect_result op =
      if op.operation_ongoing
      then completed_with 0 (err async_operation_in_progress) op
      else elim connect_result [
        | ok done ↦ completed_with 0 (ok done) op
        | err error ↦
            if is_connect_in_progress error
            then try_again_later 0 op
            else completed_with 0 (err error) op
      ]

  unfoldable pub do_connect_continuation :
      Result ℕ → ErrorCode → AsyncOperation H (Unit {0}) → Performed H (Unit {0})
  unfolding completed_with try_again_later
  do_connect_continuation option_sockerror latest op = elim option_sockerror [
    | err error ↦ completed_with 0 (err error) op
    | ok value ↦
        if (value == 11) || (value == 115)
        then try_again_later 0 op
        else completed_with 0 (if value == 0 then ok tt else err latest) op
  ]

  -- `Perform` in the reactor's context; `none` where its assertion fails.
  unfoldable pub perform_continuation :
      OperationType → (BufferView → Result ℕ) → AsyncOperation H ℕ → Option (Outcome H ℕ)
  unfolding do_perform finish_continuation
  perform_continuation op_type kernel op =
      if op.operation_ongoing
      then some (
          finish_continuation
            (do_perform op_type continuation op.buffer_view op.is_exhaustive kernel op))
      else none

  unfoldable pub connect_continuation :
      Result ℕ → ErrorCode → AsyncOperation H (Unit {0}) → Option (Outcome H (Unit {0}))
  unfolding do_connect_continuation finish_continuation
  connect_continuation option_sockerror latest op =
      if op.operation_ongoing
      then some (finish_continuation (do_connect_continuation option_sockerror latest op))
      else none

  -- `Perform` in the context that starts the operation, by the two flags of the mode.
  unfoldable pub perform_initiation :
      OperationType
      → Bool
      → Bool
      → BufferView
      → H
      → (BufferView → Result ℕ)
      → AsyncOperation H ℕ
      → Outcome H ℕ
  unfolding do_perform finish_initiation start_only
  perform_initiation op_type allow_speculative is_exhaustive buff_view user_callback kernel op =
      if not allow_speculative
      then start_only buff_view user_callback is_exhaustive op
      else finish_initiation buff_view user_callback is_exhaustive
          (do_perform op_type initiation buff_view is_exhaustive kernel op)

  -- A connect is always tried at once, and is not exhaustive.
  unfoldable pub connect_initiation :
      BufferView → H → Result (Unit {0}) → AsyncOperation H (Unit {0}) → Outcome H (Unit {0})
  unfolding do_connect finish_initiation
  connect_initiation remote_address user_callback connect_result op =
      finish_initiation remote_address user_callback false (do_connect connect_result op)
