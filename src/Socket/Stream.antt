-- ===== src/Socket/Stream.antt =====
-- include/asrt/socket/basic_stream_socket.hpp: the asynchronous side of a stream socket. `H` is the type of
-- handlers. Stream/Notification has the reaction to the reactor's events.
pub mod Notification
pub mod Sync
pub mod Run
pub mod Course
pub mod Conflicts
pub mod Tests
use asrt.Base.{ℕ, Bool, true, false, Option, none, some, List, [], ◌∷◌, if◌then◌else◌}
use asrt.ErrorCode.{Result, ok, err}
use asrt.NetBuffer.{BufferView}
use asrt.Reactor.Events.{Events}
use asrt.Socket.AsyncOperation.{
  AsyncOperation, send, receive, complete, async_needed, reset, perform_initiation,
  connect_initiation,
}

pub data StreamSocketState : Type 0 where
  disconnected connecting connected dormant connect_error : StreamSocketState

-- What the socket asks of the reactor and of the executor, and the handlers that it calls itself.
pub data Effect (H : Type 0) : Type 0 where
  write_operation_started read_operation_started read_event_consumed : Effect H
  read_ignored write_ignored : Effect H
  ignored : Events → Effect H
  posts calls : Option H → Result ℕ → Effect H
  posts_connect calls_connect : Option H → Result (Unit {0}) → Effect H

pub record StreamSocket (H : Type 0) : Type 0 where
  pub send_operation : AsyncOperation H ℕ
  pub recv_operation : AsyncOperation H ℕ
  pub connect_operation : AsyncOperation H (Unit {0})
  pub stream_sock_state : StreamSocketState

abbrev pub Step : Type 0 → Type 0
Step H = Option (StreamSocket H × List (Effect H))

module _ (H : Type 0) where
  abbrev pub new_socket : StreamSocket H
  new_socket = record {
    send_operation = reset 0;
    recv_operation = reset 0;
    connect_operation = reset tt;
    stream_sock_state = disconnected;
  }

unfoldable pub connect_state : Result (Unit {0}) → StreamSocketState
connect_state (ok done) = connected
connect_state (err error) = connect_error

unfoldable pub is_connected : StreamSocketState → Bool
is_connected connected = true
is_connected _ = false

module _ {H : Type 0} where
  unfoldable pub notifies :
      {R : Type 0}
      → (Option H → Result R → Effect H)
      → Option (Option H × Result R)
      → List (Effect H)
  notifies effect none = []
  notifies effect (some (h, result)) = effect h result ∷ []

  unfoldable pub set_stream_socket_state : StreamSocketState → StreamSocket H → StreamSocket H
  set_stream_socket_state state s = record s { stream_sock_state = state }

  -- `DoConnectAsync`, given the answer of connect(2).
  unfoldable pub do_connect_async :
      BufferView → H → Result (Unit {0}) → StreamSocket H → StreamSocket H × List (Effect H)
  unfolding notifies
  do_connect_async remote_address callback answer s =
      let o = connect_initiation remote_address callback answer s.connect_operation in
      elim o.status [
        | complete ↦ (record s { connect_operation = o.after }, notifies posts_connect o.notified)
        | async_needed ↦ (
          record s { connect_operation = o.after; stream_sock_state = connecting },
          write_operation_started ∷ [],
        )
      ]

  -- The job that `DoConnectAsync` posts, up to the call of the handler.
  unfoldable pub connect_job : Result (Unit {0}) → StreamSocket H → StreamSocket H
  unfolding set_stream_socket_state connect_state
  connect_job result s = set_stream_socket_state (connect_state result) s

  -- `DoSendAsync`, by the two flags of the mode.
  unfoldable pub do_send_async :
      Bool
      → Bool
      → BufferView
      → H
      → (BufferView → Result ℕ)
      → StreamSocket H
      → StreamSocket H × List (Effect H)
  unfolding notifies
  do_send_async speculative exhaustive send_view callback kernel s =
      let o =
        perform_initiation send speculative exhaustive send_view callback kernel s.send_operation in
      (
        record s { send_operation = o.after },
        elim o.status [
          | complete ↦ notifies posts o.notified
          | async_needed ↦ write_operation_started ∷ []
        ],
      )

  unfoldable pub send_async :
      BufferView → H → (BufferView → Result ℕ) → StreamSocket H → StreamSocket H × List (Effect H)
  unfolding do_send_async
  send_async = do_send_async true true

  unfoldable pub do_receive_async :
      Bool
      → Bool
      → BufferView
      → H
      → (BufferView → Result ℕ)
      → StreamSocket H
      → StreamSocket H × List (Effect H)
  unfolding notifies
  do_receive_async speculative exhaustive recv_view callback kernel s =
      let o =
        perform_initiation receive speculative exhaustive recv_view callback kernel
          s.recv_operation in
      (
        record s { recv_operation = o.after },
        elim o.status [
          | complete ↦ notifies posts o.notified
          | async_needed ↦
              read_operation_started ∷ (if speculative then read_event_consumed ∷ [] else [])
        ],
      )

  -- `ReceiveAsync`; `readable` is what the reactor has observed.
  unfoldable pub receive_async :
      Bool
      → BufferView
      → H
      → (BufferView → Result ℕ)
      → StreamSocket H
      → StreamSocket H × List (Effect H)
  unfolding do_receive_async
  receive_async readable = do_receive_async readable true

  unfoldable pub receive_some_async :
      Bool
      → BufferView
      → H
      → (BufferView → Result ℕ)
      → StreamSocket H
      → StreamSocket H × List (Effect H)
  unfolding do_receive_async
  receive_some_async readable = do_receive_async readable false

  unfoldable pub on_close_event : StreamSocket H → StreamSocket H
  unfolding set_stream_socket_state
  on_close_event s = set_stream_socket_state disconnected s
