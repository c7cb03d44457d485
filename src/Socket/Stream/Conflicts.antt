-- ===== src/Socket/Stream/Conflicts.antt =====
-- Operations of a stream socket that get into each other's way.
use asrt.Base.{ℕ, ◌≡◌, Bool, true, Option, some, [], ◌∷◌, arith}
use asrt.ErrorCode.{ErrorCode, Result, ok, err, async_operation_in_progress}
use asrt.NetBuffer.{BufferView}
use asrt.Reactor.Events.{Events}
use asrt.Socket.AsyncOperation.{receive}
use asrt.Socket.AsyncOperation.Reports.{second_initiation, second_connect}
use asrt.Socket.Stream.{
  StreamSocket, connected, connect_error, do_connect_async, connect_job, do_receive_async,
  on_close_event, posts, posts_connect, ignored, set_stream_socket_state, connect_state, notifies,
}
use asrt.Socket.Stream.Notification.{on_reactor_event}

module _ {H : Type 0} where
  -- A connect while another one is under way is refused by a posted job, and this job ends the first one:
  -- the socket goes into the state connect_error, in which it ignores the event that the first connect
  -- waits for, so the handler of the first connect, which is still stored, is not called.
  pub second_connect_drops_first :
      (v : BufferView) (h : H) (answer : Result (Unit {0})) (ev : Events)
      (option_sockerror : Result ℕ) (latest : ErrorCode) (received sent : BufferView → Result ℕ)
      (between in_send : StreamSocket H → Option (StreamSocket H)) (s : StreamSocket H)
      → s.connect_operation.operation_ongoing ≡ true
      → let (s', effects) = do_connect_async v h answer s in
        let s'' = connect_job (err async_operation_in_progress) s' in
        (effects ≡ posts_connect (some h) (err async_operation_in_progress) ∷ [])
        × (s''.stream_sock_state ≡ connect_error)
        × (s''.connect_operation.completion_handler ≡ s.connect_operation.completion_handler)
        × (on_reactor_event ev option_sockerror latest received sent between in_send s''
            ≡ some (s'', ignored ev ∷ []))
  unfolding do_connect_async connect_job set_stream_socket_state connect_state notifies
      on_reactor_event
  second_connect_drops_first v h answer ev option_sockerror latest received sent between in_send s
        ongoing =
      ground (arith, second_connect v h answer s.connect_operation ongoing)

  -- Closing a socket leaves a receive that is under way as it is: when the socket is connected again, every
  -- speculative receive is refused, and the operation that is left still belongs to the old handler and
  -- the old buffer.
  pub close_leaves_receive :
      (exhaustive : Bool) (v : BufferView) (h : H) (kernel : BufferView → Result ℕ)
      (s : StreamSocket H)
      → s.recv_operation.operation_ongoing ≡ true
      → let again = connect_job (ok tt) (on_close_event s) in
        let (s', effects) = do_receive_async true exhaustive v h kernel again in
        (again.stream_sock_state ≡ connected)
        × (effects ≡ posts (some h) (err async_operation_in_progress) ∷ [])
        × (s'.recv_operation.operation_ongoing ≡ true)
        × (s'.recv_operation.completion_handler ≡ s.recv_operation.completion_handler)
        × (s'.recv_operation.buffer_view ≡ s.recv_operation.buffer_view)
  unfolding do_receive_async connect_job on_close_event set_stream_socket_state connect_state
      notifies
  close_leaves_receive exhaustive v h kernel s ongoing =
      ground (arith, second_initiation receive exhaustive v h kernel s.recv_operation ongoing)
