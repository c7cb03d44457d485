-- ===== src/Socket/Stream/Sync.antt =====
-- include/asrt/socket/basic_stream_socket.hpp and include/asrt/impl/basic_stream_socket.ipp: the operations
-- of a stream socket that do not wait for the reactor. The answers of the basic socket and of the
-- system calls are arguments.
use asrt.Base.{ℕ, Bool, true, false, not, ◌&&◌, ◌||◌, ◌==◌, if◌then◌else◌}
use asrt.ErrorCode.{
  ErrorCode, Result, ok, err, eq_code, is_busy, not_connected, socket_not_connected,
  socket_already_connected, socket_not_open, receive_operation_ongoing, send_operation_ongoing,
}
use asrt.NetBuffer.{BufferView}
use asrt.Socket.Stream.{
  StreamSocket, StreamSocketState, connected, dormant, set_stream_socket_state, is_connected,
}

is_dormant : StreamSocketState → Bool
is_dormant dormant = true
is_dormant _ = false

-- `DoReceiveSync`.
do_receive_sync : BufferView → Bool → Result ℕ → Result ℕ
do_receive_sync recv_view non_blocking answer = if recv_view.size == 0 then ok 0 else elim answer [
  | ok n ↦ ok n
  | err error ↦ if is_busy error && non_blocking then ok 0 else err error
]

module _ {H : Type 0} where
  -- `CheckIsConnected` and `CheckNotConnected`.
  unfoldable pub check_is_connected : StreamSocket H → Result (Unit {0})
  unfolding is_connected
  check_is_connected s =
      if is_connected s.stream_sock_state then ok tt else err socket_not_connected

  unfoldable pub check_not_connected : StreamSocket H → Result (Unit {0})
  unfolding is_connected
  check_not_connected s =
      if is_connected s.stream_sock_state then err socket_already_connected else ok tt

  unfoldable pub check_send_possible : StreamSocket H → Result (Unit {0})
  unfolding check_is_connected
  check_send_possible s = elim (check_is_connected s) [
    | err error ↦ err error
    | ok done ↦ if s.send_operation.operation_ongoing then err send_operation_ongoing else ok tt
  ]

  -- `is_open` is the answer of the basic socket.
  check_recv_possible : Bool → StreamSocket H → Result (Unit {0})
  check_recv_possible is_open s =
      if not is_open
      then err socket_not_open
      else if s.recv_operation.operation_ongoing
      then err receive_operation_ongoing
      else ok tt

  -- What SendSync, SendSome and TrySend do to the socket on an error.
  unfoldable pub on_send_error : ErrorCode → StreamSocket H → StreamSocket H
  unfolding is_connected is_dormant set_stream_socket_state
  on_send_error error s =
      if (is_connected s.stream_sock_state || is_dormant s.stream_sock_state)
        && eq_code error not_connected
      then set_stream_socket_state dormant s
      else s

  -- `SendSync`, `SendSome` and `TrySend`, by the answer of their system call.
  unfoldable pub send_now : {R : Type 0} → Result R → StreamSocket H → Result R × StreamSocket H
  unfolding check_send_possible on_send_error
  send_now answer s = elim (check_send_possible s) [
    | err error ↦ (err error, on_send_error error s)
    | ok done ↦ elim answer [
      | err error ↦ (err error, on_send_error error s)
      | ok value ↦ (ok value, s)
    ]
  ]

  -- `ReceiveSync` and `ReceiveSome`, which leave the socket as it is.
  unfoldable pub receive_now : Bool → BufferView → Bool → Result ℕ → StreamSocket H → Result ℕ
  unfolding check_recv_possible do_receive_sync
  receive_now is_open recv_view non_blocking answer s = elim (check_recv_possible is_open s) [
    | err error ↦ err error
    | ok done ↦ do_receive_sync recv_view non_blocking answer
  ]

  -- `Connect`, by the results of TryOpenSocket and CheckProtocolMatch and the answer of connect(2).
  unfoldable pub connect_now :
      Result (Unit {0})
      → Result (Unit {0})
      → Result (Unit {0})
      → StreamSocket H
      → Result (Unit {0}) × StreamSocket H
  unfolding check_not_connected set_stream_socket_state
  connect_now opened matches answer s = elim opened [
    | err error ↦ (err error, s)
    | ok done ↦ elim (check_not_connected s) [
      | err error ↦ (err error, s)
      | ok done ↦ elim matches [
        | err error ↦ (err error, s)
        | ok done ↦ elim answer [
          | err error ↦ (err error, s)
          | ok done ↦ (ok tt, set_stream_socket_state connected s)
        ]
      ]
    ]
  ]

  -- `AssignAcceptedHandle`, by the result of AssignNativeHandle.
  unfoldable pub assign_accepted_handle :
      Result (Unit {0}) → StreamSocket H → Result (Unit {0}) × StreamSocket H
  unfolding set_stream_socket_state
  assign_accepted_handle assigned s = elim assigned [
    | err error ↦ (err error, s)
    | ok done ↦ (ok tt, set_stream_socket_state connected s)
  ]
