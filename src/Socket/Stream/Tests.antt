-- ===== src/Socket/Stream/Tests.antt =====
-- Stream sockets at work.
use asrt.Base.{ℕ, ◌≡◌, refl, true, some, [], ◌∷◌}
use asrt.ErrorCode.{Result, ok, err, async_operation_in_progress, in_progress, try_again}
use asrt.NetBuffer.{BufferView}
use asrt.Reactor.Events.{of_mask}
use asrt.Socket.AsyncOperation.{AsyncOperation, reset}
use asrt.Socket.Stream.{
  StreamSocket, connecting, connected, connect_error, new_socket, do_connect_async, connect_job,
  do_receive_async, on_close_event, posts, posts_connect, ignored,
}
use asrt.Socket.Stream.Notification.{on_reactor_event}
use asrt.Socket.Stream.Course.{run-IsSafe}
use asrt.Socket.Stream.Run.{Course, stop, connects, sends, receives, closes, event, run, IsSafe}
use asrt.Socket.Stream.Conflicts.{second_connect_drops_first, close_leaves_receive}

abbrev view : BufferView
view = record { start = 1; size = 4 }

abbrev whole : BufferView → Result ℕ
whole v = ok v.size

abbrev busy : BufferView → Result ℕ
busy v = err try_again

-- A connect that has to wait, a receive and a send behind it, and a receive that the handler starts.
abbrev session : Course ℕ
session = connects view 1 (err in_progress) (
    event (of_mask 4) (ok 0) in_progress busy busy (receives true true view 2 busy stop) stop (
      sends true true view 3 busy (
        event (of_mask 5) (ok 0) in_progress whole whole (receives true true view 4 busy stop) stop
          (closes stop))))

run-IsSafe_example : IsSafe (run session (new_socket ℕ))
run-IsSafe_example = run-IsSafe ℕ session

abbrev under_way : {R : Type 0} → R → AsyncOperation ℕ R
under_way value = record (reset value) {
  operation_ongoing = true;
  buffer_view = view;
  completion_handler = some 7;
}

abbrev connecting_socket : StreamSocket ℕ
connecting_socket = record {
  send_operation = reset 0;
  recv_operation = reset 0;
  connect_operation = under_way tt;
  stream_sock_state = connecting;
}

second_connect_drops_first_example :
    let (s', effects) = do_connect_async view 9 (ok tt) connecting_socket in
    let s'' = connect_job (err async_operation_in_progress) s' in
    (effects ≡ posts_connect (some 9) (err async_operation_in_progress) ∷ [])
    × (s''.stream_sock_state ≡ connect_error)
    × (s''.connect_operation.completion_handler ≡ some 7)
    × (on_reactor_event (of_mask 4) (ok 0) in_progress busy busy some some s''
        ≡ some (s'', ignored (of_mask 4) ∷ []))
second_connect_drops_first_example =
    second_connect_drops_first view 9 (ok tt) (of_mask 4) (ok 0) in_progress busy busy some some
      connecting_socket refl

abbrev receiving_socket : StreamSocket ℕ
receiving_socket = record {
  send_operation = reset 0;
  recv_operation = under_way 0;
  connect_operation = reset tt;
  stream_sock_state = connected;
}

close_leaves_receive_example :
    let again = connect_job (ok tt) (on_close_event receiving_socket) in
    let (s', effects) = do_receive_async true true view 9 whole again in
    (again.stream_sock_state ≡ connected)
    × (effects ≡ posts (some 9) (err async_operation_in_progress) ∷ [])
    × (s'.recv_operation.operation_ongoing ≡ true)
    × (s'.recv_operation.completion_handler ≡ some 7)
    × (s'.recv_operation.buffer_view ≡ view)
close_leaves_receive_example = close_leaves_receive true view 9 whole receiving_socket refl
