-- ===== src/Socket/Acceptor.antt =====
-- include/asrt/socket/acceptor.hpp and include/asrt/impl/basic_acceptor_socket.ipp: a socket that accepts
-- connections. A socket that is to take a connection is a number, and so is the end point that is to
-- take the peer's address. `H` is the type of handlers. A result `none` stands for an assertion that
-- fails, for the use of a null pointer, and for the call of an empty handler.
pub mod Course
pub mod Speculation
pub mod Tests
use asrt.Base.{ℕ, Bool, true, false, Option, none, some, List, [], ◌∷◌, ◌++◌, if◌then◌else◌}
use asrt.ErrorCode.{
  Result, ok, err, is_busy, socket_not_bound, accept_operation_ongoing, listen_operation_ongoing,
}
use asrt.Reactor.Entry.{NativeHandle}
use asrt.Reactor.Events.{Events, has_write_event}

pub data AcceptorSocketState : Type 0 where
  disconnected in_bound listening accepting : AcceptorSocketState

-- What the socket asks of the kernel, the reactor and the executor, and the handlers that it calls.
pub data Effect (H : Type 0) : Type 0 where
  listens : Effect H
  accepts : Option ℕ → Effect H
  assigns : ℕ → NativeHandle → Effect H
  read_operation_started : Effect H
  ignored : Events → Effect H
  posts calls : H → Result (Unit {0}) → Effect H

pub record Acceptor (H : Type 0) : Type 0 where
  pub acceptor_sockstate : AcceptorSocketState
  pub on_accept_complete : Option H
  pub peer_socket : Option ℕ
  pub peer_info : Option ℕ
  pub speculative_accept : Bool

abbrev pub new_acceptor : (H : Type 0) → Acceptor H
new_acceptor H = record {
  acceptor_sockstate = disconnected;
  on_accept_complete = none;
  peer_socket = none;
  peer_info = none;
  speculative_accept = false;
}

-- The test of `IsBusy` on the error of a result.
unfoldable pub is_busy_result : {A : Type 0} → Result A → Bool
is_busy_result (ok value) = false
is_busy_result (err error) = is_busy error

module _ {H : Type 0} where
  unfoldable pub set_acceptor_socket_state : AcceptorSocketState → Acceptor H → Acceptor H
  set_acceptor_socket_state state a = record a { acceptor_sockstate = state }

  -- `BindToEndpointImpl`, by the answer of bind(2).
  unfoldable pub bind_acceptor : Result (Unit {0}) → Acceptor H → Result (Unit {0}) × Acceptor H
  unfolding set_acceptor_socket_state
  bind_acceptor (ok done) a = (ok tt, set_acceptor_socket_state in_bound a)
  bind_acceptor (err error) a = (err error, a)

  -- `OnCloseEvent`.
  unfoldable pub close_acceptor : Acceptor H → Acceptor H
  unfolding set_acceptor_socket_state
  close_acceptor a = set_acceptor_socket_state disconnected a

  -- `DoListen`, by the answer of listen(2).
  unfoldable pub do_listen : Result (Unit {0}) → Acceptor H → Result (Unit {0}) × Acceptor H
  unfolding set_acceptor_socket_state
  do_listen (ok done) a = (ok tt, set_acceptor_socket_state listening a)
  do_listen (err error) a = (err error, a)

  unfoldable pub listen :
      Result (Unit {0}) → Acceptor H → Result (Unit {0}) × Acceptor H × List (Effect H)
  unfolding do_listen
  listen answer a = elim a.acceptor_sockstate [
    | in_bound ↦ let (result, a') = do_listen answer a in (result, a', listens ∷ [])
    | accepting ↦ (err accept_operation_ongoing, a, [])
    | listening ↦ (err listen_operation_ongoing, a, [])
    | disconnected ↦ (err socket_not_bound, a, [])
  ]

  -- `DoAccept`, by the answer of accept4(2).
  unfoldable pub do_accept :
      Result NativeHandle → ℕ → Option ℕ → Result (Unit {0}) × List (Effect H)
  do_accept (ok handle) peer endpoint = (ok tt, accepts endpoint ∷ assigns peer handle ∷ [])
  do_accept (err error) peer endpoint = (err error, accepts endpoint ∷ [])

  -- `AcceptSyncInternal` behind `DoListen`.
  accept_listening :
      Result NativeHandle
      → ℕ
      → Option ℕ
      → Result (Unit {0}) × Acceptor H
      → Result (Unit {0}) × Acceptor H × List (Effect H)
  unfolding do_accept
  accept_listening answer peer endpoint (err error, a) = (err error, a, listens ∷ [])
  accept_listening answer peer endpoint (ok done, a) =
      let (result, effects) = do_accept answer peer endpoint in (result, a, listens ∷ effects)

  unfoldable pub accept_sync_internal :
      Result (Unit {0})
      → Result NativeHandle
      → ℕ
      → Option ℕ
      → Acceptor H
      → Result (Unit {0}) × Acceptor H × List (Effect H)
  unfolding do_accept do_listen accept_listening
  accept_sync_internal listened answer peer endpoint a = elim a.acceptor_sockstate [
    | listening ↦ let (result, effects) = do_accept answer peer endpoint in (result, a, effects)
    | in_bound ↦ accept_listening answer peer endpoint (do_listen listened a)
    | accepting ↦ (err accept_operation_ongoing, a, [])
    | disconnected ↦ (err socket_not_bound, a, [])
  ]

  -- The end of `DoAsyncAccept` where the reactor is waited for.
  wait_for_connection : ℕ → Option ℕ → H → Acceptor H → Acceptor H
  wait_for_connection peer endpoint callback a = record a {
    peer_socket = some peer;
    peer_info = endpoint;
    on_accept_complete = some callback;
  }

  -- `DoAsyncAccept`; `answer` is that of the accept that is tried at once.
  unfoldable pub do_async_accept :
      Result NativeHandle → ℕ → Option ℕ → H → Acceptor H → Acceptor H × List (Effect H)
  unfolding do_accept wait_for_connection is_busy_result
  do_async_accept answer peer endpoint callback a =
      if a.speculative_accept
      then (let (result, effects) = do_accept answer peer endpoint in
          let tried : Acceptor H = record a { speculative_accept = false } in
          if is_busy_result result
          then (
            wait_for_connection peer endpoint callback tried,
            accepts endpoint ∷ read_operation_started ∷ [],
          )
          else (tried, effects ++ posts callback result ∷ []))
      else (wait_for_connection peer endpoint callback a, read_operation_started ∷ [])

  start_accept : Result NativeHandle → ℕ → Option ℕ → H → Acceptor H → Acceptor H × List (Effect H)
  unfolding set_acceptor_socket_state do_async_accept
  start_accept answer peer endpoint callback a =
      do_async_accept answer peer endpoint callback (set_acceptor_socket_state accepting a)

  -- `AcceptAsyncInternal` behind `DoListen`.
  start_listening :
      Result NativeHandle
      → ℕ
      → Option ℕ
      → H
      → Result (Unit {0}) × Acceptor H
      → Result (Unit {0}) × Acceptor H × List (Effect H)
  unfolding start_accept
  start_listening answer peer endpoint callback (err error, a) = (err error, a, listens ∷ [])
  start_listening answer peer endpoint callback (ok done, a) =
      let (a', effects) = start_accept answer peer endpoint callback a in
      (ok tt, a', listens ∷ effects)

  unfoldable pub accept_async_internal :
      Result (Unit {0})
      → Result NativeHandle
      → ℕ
      → Option ℕ
      → H
      → Acceptor H
      → Result (Unit {0}) × Acceptor H × List (Effect H)
  unfolding start_accept do_listen start_listening
  accept_async_internal listened answer peer endpoint callback a = elim a.acceptor_sockstate [
    | listening ↦
        let (a', effects) = start_accept answer peer endpoint callback a in (ok tt, a', effects)
    | in_bound ↦ start_listening answer peer endpoint callback (do_listen listened a)
    | accepting ↦ (err accept_operation_ongoing, a, [])
    | disconnected ↦ (err socket_not_bound, a, [])
  ]

  -- `OnReactorEventImpl` up to the end of the accept, during which the mutex is free: the result of
  -- the accept, if one is made.
  unfoldable pub begin_acceptor_event :
      Events
      → Result NativeHandle
      → Acceptor H
      → Option (Option (Result (Unit {0})) × Acceptor H × List (Effect H))
  unfolding do_accept
  begin_acceptor_event events answer a =
      if has_write_event events then none else elim a.acceptor_sockstate [
        | accepting ↦ elim a.peer_socket [
          | none ↦ none
          | some peer ↦
              let (result, effects) = do_accept answer peer a.peer_info in
              some (some result, a, effects)
        ]
        | disconnected ↦ some (none, record a { speculative_accept = true }, ignored events ∷ [])
        | in_bound ↦ some (none, record a { speculative_accept = true }, ignored events ∷ [])
        | listening ↦ some (none, record a { speculative_accept = true }, ignored events ∷ [])
      ]

  -- `HandleAysncAccept` where the accept was not for nothing.
  complete_accept : Result (Unit {0}) → Acceptor H → Option (Acceptor H × List (Effect H))
  complete_accept result a = elim a.on_accept_complete [
    | none ↦ none
    | some h ↦ some (
      record a { acceptor_sockstate = listening; on_accept_complete = none },
      calls h result ∷ [],
    )
  ]

  -- `HandleAysncAccept` behind the accept, up to the call of the handler.
  unfoldable pub end_acceptor_event :
      Result (Unit {0}) → Acceptor H → Option (Acceptor H × List (Effect H))
  unfolding is_busy_result complete_accept
  end_acceptor_event result a = elim a.acceptor_sockstate [
    | disconnected ↦ some (a, [])
    | in_bound ↦
        if is_busy_result result
        then some (a, read_operation_started ∷ [])
        else complete_accept result a
    | listening ↦
        if is_busy_result result
        then some (a, read_operation_started ∷ [])
        else complete_accept result a
    | accepting ↦
        if is_busy_result result
        then some (a, read_operation_started ∷ [])
        else complete_accept result a
  ]
