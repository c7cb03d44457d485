-- ===== src/Socket/Stream/Notification.antt =====
-- include/asrt/socket/basic_stream_socket.hpp: what a stream socket does on an event of the reactor. What
-- happens while the mutex is released for the call of a handler is an argument (`between`). A result
-- `none` stands for an assertion that fails.
use asrt.Base.{ℕ, ◌&&◌, Option, none, some, List, [], ◌∷◌, ◌++◌, if◌then◌else◌}
use asrt.ErrorCode.{ErrorCode, Result}
use asrt.NetBuffer.{BufferView}
use asrt.Reactor.Events.{Events, has_read_event, has_write_event}
use asrt.Socket.AsyncOperation.{
  send, receive, complete, async_needed, perform_continuation, connect_continuation,
}
use asrt.Socket.Stream.{
  StreamSocket, disconnected, connecting, connected, dormant, connect_error, Effect,
  write_operation_started, read_operation_started, read_ignored, write_ignored, ignored, calls,
  calls_connect, Step, notifies, is_connected, connect_state,
}

module _ {H : Type 0} where
  -- The end of a handler of the reactor: the handler of a complete operation runs with the mutex
  -- released.
  unfoldable pub released :
      (StreamSocket H → Option (StreamSocket H)) → StreamSocket H → List (Effect H) → Step H
  released between s effects = elim (between s) [ none ↦ none | some s' ↦ some (s', effects) ]

  unfoldable pub handle_connection_establishment :
      Result ℕ → ErrorCode → (StreamSocket H → Option (StreamSocket H)) → StreamSocket H → Step H
  unfolding released notifies connect_state
  handle_connection_establishment option_sockerror latest between s =
      elim (connect_continuation option_sockerror latest s.connect_operation) [
        | none ↦ none
        | some o ↦ elim o.status [
          | complete ↦
              released between
                (record s {
                  connect_operation = o.after;
                  stream_sock_state = connect_state o.after.completion_result;
                })
                (notifies calls_connect o.notified)
          | async_needed ↦
              some (record s { connect_operation = o.after }, write_operation_started ∷ [])
        ]
      ]

  unfoldable pub handle_send :
      (BufferView → Result ℕ) → (StreamSocket H → Option (StreamSocket H)) → StreamSocket H → Step H
  unfolding released notifies
  handle_send kernel between s = elim (perform_continuation send kernel s.send_operation) [
    | none ↦ none
    | some o ↦ elim o.status [
      | complete ↦
          released between (record s { send_operation = o.after }) (notifies calls o.notified)
      | async_needed ↦ some (record s { send_operation = o.after }, write_operation_started ∷ [])
    ]
  ]

  unfoldable pub handle_receive :
      (BufferView → Result ℕ) → (StreamSocket H → Option (StreamSocket H)) → StreamSocket H → Step H
  unfolding released notifies
  handle_receive kernel between s = elim (perform_continuation receive kernel s.recv_operation) [
    | none ↦ none
    | some o ↦ elim o.status [
      | complete ↦
          released between (record s { recv_operation = o.after }) (notifies calls o.notified)
      | async_needed ↦ some (record s { recv_operation = o.after }, read_operation_started ∷ [])
    ]
  ]

  -- The two halves of `HandleDataTranster`.
  unfoldable pub transfer_read :
      Events
      → (BufferView → Result ℕ)
      → (StreamSocket H → Option (StreamSocket H))
      → StreamSocket H
      → Step H
  unfolding handle_receive
  transfer_read ev kernel between s =
      if has_read_event ev
      then (if s.recv_operation.operation_ongoing
          then handle_receive kernel between s
          else some (s, read_ignored ∷ []))
      else some (s, [])

  unfoldable pub transfer_write :
      Events
      → (BufferView → Result ℕ)
      → (StreamSocket H → Option (StreamSocket H))
      → StreamSocket H
      → Step H
  unfolding handle_send is_connected
  transfer_write ev kernel between s =
      if s.send_operation.operation_ongoing
        && (has_write_event ev && is_connected s.stream_sock_state)
      then (if s.send_operation.operation_ongoing
          then handle_send kernel between s
          else some (s, write_ignored ∷ []))
      else some (s, [])

  unfoldable pub handle_data_transfer :
      Events
      → (BufferView → Result ℕ)
      → (BufferView → Result ℕ)
      → (StreamSocket H → Option (StreamSocket H))
      → (StreamSocket H → Option (StreamSocket H))
      → StreamSocket H
      → Step H
  unfolding transfer_read transfer_write
  handle_data_transfer ev received sent in_receive in_send s =
      elim (transfer_read ev received in_receive s) [
        | none ↦ none
        | some (s', effects) ↦ elim (transfer_write ev sent in_send s') [
          | none ↦ none
          | some (s'', more) ↦ some (s'', effects ++ more)
        ]
      ]

  -- `OnReactorEventImpl`.
  unfoldable pub on_reactor_event :
      Events
      → Result ℕ
      → ErrorCode
      → (BufferView → Result ℕ)
      → (BufferView → Result ℕ)
      → (StreamSocket H → Option (StreamSocket H))
      → (StreamSocket H → Option (StreamSocket H))
      → StreamSocket H
      → Step H
  unfolding handle_connection_establishment handle_data_transfer
  on_reactor_event ev option_sockerror latest received sent between in_send s =
      elim s.stream_sock_state [
        | disconnected ↦ some (s, ignored ev ∷ [])
        | connecting ↦ handle_connection_establishment option_sockerror latest between s
        | connected ↦ handle_data_transfer ev received sent between in_send s
        | dormant ↦ some (s, ignored ev ∷ [])
        | connect_error ↦ some (s, ignored ev ∷ [])
      ]
