-- ===== src/Socket/Stream/Course.antt =====
-- A stream socket under every course of its operations and of the reactor's events.
use asrt.Base.{ℕ, ◌≡◌, refl, true, Option, none, some, List, inl, arith}
use asrt.ErrorCode.{ErrorCode, Result}
use asrt.NetBuffer.{BufferView}
use asrt.Reactor.Events.{Events}
use asrt.Socket.AsyncOperation.{send, receive}
use asrt.Socket.Stream.{
  StreamSocket, Effect, Step, new_socket, do_connect_async, connect_job, set_stream_socket_state,
  connect_state, do_send_async, do_receive_async, on_close_event, calls_connect, calls, notifies,
}
use asrt.Socket.Stream.Sync.{
  send_now, connect_now, assign_accepted_handle, check_send_possible, check_is_connected,
  on_send_error, check_not_connected,
}
use asrt.Socket.Stream.Notification.{
  on_reactor_event, handle_connection_establishment, released, handle_send, handle_receive,
  transfer_read, transfer_write, handle_data_transfer,
}
use asrt.Socket.AsyncOperation.Reports.{
  connect_initiation_lem, connect_continuation-some, perform_continuation-some,
}
use asrt.Socket.Stream.Run.{
  Course, stop, connects, connect_done, sends, receives, closes, sends_now, connects_now, accepts,
  event, run, IsConsistent, IsSafe, IsSafeStep,
}

module _ {H : Type 0} where
  do_connect_async-IsConsistent :
      (v : BufferView) (h : H) (answer : Result (Unit {0})) (s : StreamSocket H)
      → IsConsistent s
      → IsConsistent (do_connect_async v h answer s).0
  unfolding do_connect_async
  do_connect_async-IsConsistent v h answer s c =
      ground (arith, connect_initiation_lem v h answer s.connect_operation)

  connect_job-IsConsistent :
      (result : Result (Unit {0})) (s : StreamSocket H) → IsConsistent (connect_job result s)
  unfolding connect_job set_stream_socket_state connect_state
  connect_job-IsConsistent result s = ground arith

  released-IsSafe :
      (between : StreamSocket H → Option (StreamSocket H)) (s : StreamSocket H)
      (effects : List (Effect H))
      → IsSafe (between s)
      → IsSafeStep (released between s effects)
  unfolding released
  released-IsSafe between s effects safe = ground arith

  abbrev Keeps : (StreamSocket H → Option (StreamSocket H)) → Type 0
  Keeps between = (s : StreamSocket H) → IsConsistent s → IsSafe (between s)

  handle_connection_establishment-IsSafe :
      (option_sockerror : Result ℕ) (latest : ErrorCode)
      (between : StreamSocket H → Option (StreamSocket H)) (s : StreamSocket H)
      → Keeps between
      → s.connect_operation.operation_ongoing ≡ true
      → IsSafeStep (handle_connection_establishment option_sockerror latest between s)
  unfolding handle_connection_establishment connect_state
  handle_connection_establishment-IsSafe option_sockerror latest between s keeps ongoing =
      let (o, e, ends) =
        connect_continuation-some option_sockerror latest s.connect_operation ongoing in
      let s' : StreamSocket H = record s {
        connect_operation = o.after;
        stream_sock_state = connect_state o.after.completion_result;
      } in
      ground (arith, released-IsSafe between s' (notifies calls_connect o.notified), keeps s')

  handle_send-IsSafe :
      (kernel : BufferView → Result ℕ) (between : StreamSocket H → Option (StreamSocket H))
      (s : StreamSocket H)
      → Keeps between
      → IsConsistent s
      → s.send_operation.operation_ongoing ≡ true
      → IsSafeStep (handle_send kernel between s)
  unfolding handle_send
  handle_send-IsSafe kernel between s keeps c ongoing =
      let (o, e) = perform_continuation-some send kernel s.send_operation ongoing in
      let s' : StreamSocket H = record s { send_operation = o.after } in
      ground (arith, released-IsSafe between s' (notifies calls o.notified), keeps s')

  handle_receive-IsSafe :
      (kernel : BufferView → Result ℕ) (between : StreamSocket H → Option (StreamSocket H))
      (s : StreamSocket H)
      → Keeps between
      → IsConsistent s
      → s.recv_operation.operation_ongoing ≡ true
      → IsSafeStep (handle_receive kernel between s)
  unfolding handle_receive
  handle_receive-IsSafe kernel between s keeps c ongoing =
      let (o, e) = perform_continuation-some receive kernel s.recv_operation ongoing in
      let s' : StreamSocket H = record s { recv_operation = o.after } in
      ground (arith, released-IsSafe between s' (notifies calls o.notified), keeps s')

  transfer_read-IsSafe :
      (ev : Events) (kernel : BufferView → Result ℕ)
      (between : StreamSocket H → Option (StreamSocket H)) (s : StreamSocket H)
      → Keeps between
      → IsConsistent s
      → IsSafeStep (transfer_read ev kernel between s)
  unfolding transfer_read
  transfer_read-IsSafe ev kernel between s keeps c =
      ground (arith, handle_receive-IsSafe kernel between s keeps c)

  transfer_write-IsSafe :
      (ev : Events) (kernel : BufferView → Result ℕ)
      (between : StreamSocket H → Option (StreamSocket H)) (s : StreamSocket H)
      → Keeps between
      → IsConsistent s
      → IsSafeStep (transfer_write ev kernel between s)
  unfolding transfer_write
  transfer_write-IsSafe ev kernel between s keeps c =
      ground (arith, handle_send-IsSafe kernel between s keeps c)

  handle_data_transfer-IsSafe :
      (ev : Events) (received sent : BufferView → Result ℕ)
      (in_receive in_send : StreamSocket H → Option (StreamSocket H)) (s : StreamSocket H)
      → Keeps in_receive
      → Keeps in_send
      → IsConsistent s
      → IsSafeStep (handle_data_transfer ev received sent in_receive in_send s)
  unfolding handle_data_transfer
  handle_data_transfer-IsSafe ev received sent in_receive in_send s keeps keeps' c =
      second (transfer_read ev received in_receive s) refl
        (transfer_read-IsSafe ev received in_receive s keeps c)
    where
      second :
          (read : Step H)
          → transfer_read ev received in_receive s ≡ read
          → IsSafeStep read
          → IsSafeStep (handle_data_transfer ev received sent in_receive in_send s)
      second none e safe = elim safe [ ]
      second (some (s', effects)) e safe =
          ground (arith, e, transfer_write-IsSafe ev sent in_send s' keeps' safe)

  on_reactor_event-IsSafe :
      (ev : Events) (option_sockerror : Result ℕ) (latest : ErrorCode)
      (received sent : BufferView → Result ℕ)
      (between in_send : StreamSocket H → Option (StreamSocket H)) (s : StreamSocket H)
      → Keeps between
      → Keeps in_send
      → IsConsistent s
      → IsSafeStep (on_reactor_event ev option_sockerror latest received sent between in_send s)
  unfolding on_reactor_event
  on_reactor_event-IsSafe ev option_sockerror latest received sent between in_send s keeps keeps'
        c =
      ground (
        arith,
        handle_connection_establishment-IsSafe option_sockerror latest between s keeps,
        handle_data_transfer-IsSafe ev received sent between in_send s keeps keeps' c,
      )

  send_now-IsConsistent :
      (answer : Result ℕ) (s : StreamSocket H) → IsConsistent s → IsConsistent (send_now answer s).1
  unfolding send_now check_send_possible check_is_connected on_send_error set_stream_socket_state
  send_now-IsConsistent answer s c = ground arith

  connect_now-IsConsistent :
      (opened matches answer : Result (Unit {0})) (s : StreamSocket H)
      → IsConsistent s
      → IsConsistent (connect_now opened matches answer s).1
  unfolding connect_now check_not_connected set_stream_socket_state
  connect_now-IsConsistent opened matches answer s c = ground arith

  assign_accepted_handle-IsConsistent :
      (assigned : Result (Unit {0})) (s : StreamSocket H)
      → IsConsistent s
      → IsConsistent (assign_accepted_handle assigned s).1
  unfolding assign_accepted_handle set_stream_socket_state
  assign_accepted_handle-IsConsistent assigned s c = ground arith

  run-Keeps : (course : Course H) → Keeps (run course)
  unfolding run do_send_async do_receive_async on_close_event set_stream_socket_state
  run-Keeps stop s c = c
  run-Keeps (connects v h answer rest) s c =
      run-Keeps rest (do_connect_async v h answer s).0
        (do_connect_async-IsConsistent v h answer s c)
  run-Keeps (connect_done result rest) s c =
      run-Keeps rest (connect_job result s) (connect_job-IsConsistent result s)
  run-Keeps (sends speculative exhaustive v h kernel rest) s c =
      run-Keeps rest (do_send_async speculative exhaustive v h kernel s).0 c
  run-Keeps (receives speculative exhaustive v h kernel rest) s c =
      run-Keeps rest (do_receive_async speculative exhaustive v h kernel s).0 c
  run-Keeps (closes rest) s c = run-Keeps rest (on_close_event s) (inl (ground arith))
  run-Keeps (sends_now answer rest) s c =
      run-Keeps rest (send_now answer s).1 (send_now-IsConsistent answer s c)
  run-Keeps (connects_now opened matches answer rest) s c =
      run-Keeps rest (connect_now opened matches answer s).1
        (connect_now-IsConsistent opened matches answer s c)
  run-Keeps (accepts assigned rest) s c =
      run-Keeps rest (assign_accepted_handle assigned s).1
        (assign_accepted_handle-IsConsistent assigned s c)
  run-Keeps (event ev option_sockerror latest received sent in_first in_send rest) s c =
      behind
        (on_reactor_event ev option_sockerror latest received sent (run in_first) (run in_send) s)
        refl
        (on_reactor_event-IsSafe ev option_sockerror latest received sent (run in_first)
          (run in_send) s (run-Keeps in_first) (run-Keeps in_send) c)
        (run-Keeps rest)
    where
      behind :
          (o : Step H)
          → on_reactor_event ev option_sockerror latest received sent (run in_first) (run in_send) s
            ≡ o
          → IsSafeStep o
          → Keeps (run rest)
          → IsSafe (run (event ev option_sockerror latest received sent in_first in_send rest) s)
      behind none e safe keeps = elim safe [ ]
      behind (some (s', effects)) e safe keeps = rw (e, IsSafe) (keeps s' safe)

-- Under every course of connects and sends (asynchronous and not), asynchronous receives, accepted
-- handles, closes, posted connect jobs and events of the reactor, with any courses while handlers run
-- and any answers of the kernel: no assertion of an operation fails, and whenever the socket is
-- connecting, its connect operation is under way.
pub run-IsSafe : (H : Type 0) (course : Course H) → IsSafe (run course (new_socket H))
run-IsSafe H course = run-Keeps course (new_socket H) (inl (ground arith))
