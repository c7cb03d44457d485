-- ===== src/Socket/Datagram.antt =====
-- include/asrt/socket/basic_datagram_socket.hpp: a datagram socket. `H` is the type of handlers; a result
-- `none` of an event stands for the call of an empty handler.
pub mod Latest
pub mod Tests
use asrt.Base.{
  ℕ, Bool, true, false, not, ◌&&◌, ◌||◌, ◌>>=◌, Option, none, some, List, [], ◌∷◌, ◌++◌,
  if◌then◌else◌,
}
use asrt.ErrorCode.{
  Result, ok, err, eq_code, try_again, would_block, socket_not_open, receive_operation_ongoing,
  default_error, no_default_peer, protocol_mismatch, reactor_not_available, socket_in_blocking_mode,
}
use asrt.NetBuffer.{BufferView}
use asrt.Reactor.Events.{Events, has_read_event, has_write_event}

-- What the socket asks of the kernel and the reactor, and the handlers that it calls; `true` observes
-- an event and `false` ends that.
pub data Effect (H : Type 0) : Type 0 where
  connects disconnects : Effect H
  observes_read observes_write : Bool → Effect H
  calls : H → Result ℕ → Effect H

pub record DatagramSocket (H : Type 0) : Type 0 where
  pub is_open : Bool
  pub has_reactor : Bool
  pub is_non_blocking : Bool
  pub recv_ongoing : Bool
  pub send_ongoing : Bool
  pub has_default_peer : Bool
  pub recv_view : Option BufferView
  pub send_handler : Option H
  pub recv_handler : Option H

module _ {H : Type 0} where
  -- `OnCloseEvent`, when the base has closed the socket.
  unfoldable pub close_datagram : DatagramSocket H → DatagramSocket H
  close_datagram s = record s {
    is_open = false;
    recv_ongoing = false;
    send_ongoing = false;
    has_default_peer = false;
  }

  -- `SetDefaultPeer`, by the answers of `TryOpenSocket`, of the protocol's test and of connect(2).
  unfoldable pub set_default_peer :
      Result (Unit {0})
      → Bool
      → Result (Unit {0})
      → DatagramSocket H
      → Result (Unit {0}) × DatagramSocket H × List (Effect H)
  set_default_peer (err error) protocol_matches answer s = (err error, s, [])
  set_default_peer (ok done) protocol_matches answer s =
      let opened : DatagramSocket H = record s { is_open = true } in
      if not protocol_matches then (err protocol_mismatch, opened, []) else elim answer [
        | err error ↦ (err error, opened, connects ∷ [])
        | ok set ↦ (ok tt, record opened { has_default_peer = true }, connects ∷ [])
      ]

  unfoldable pub remove_default_peer :
      Result (Unit {0}) → DatagramSocket H → Result (Unit {0}) × DatagramSocket H × List (Effect H)
  remove_default_peer answer s =
      if not s.has_default_peer then (err no_default_peer, s, []) else elim answer [
        | err error ↦ (err error, s, disconnects ∷ [])
        | ok done ↦ (ok tt, record s { has_default_peer = false }, disconnects ∷ [])
      ]

  -- `CheckRecvPossible` and `CheckSendPossible`, with the error of the source.
  unfoldable pub datagram_recv_possible : DatagramSocket H → Result (Unit {0})
  datagram_recv_possible s =
      if not s.is_open
      then err socket_not_open
      else if s.recv_ongoing
      then err receive_operation_ongoing
      else ok tt

  unfoldable pub datagram_send_possible : DatagramSocket H → Result (Unit {0})
  datagram_send_possible s =
      if not s.is_open
      then err socket_not_open
      else if s.send_ongoing
      then err receive_operation_ongoing
      else ok tt

  -- The end of `SendSome` and of `ReceiveSome`, by the answer of the system call.
  or_else_transfer : Result ℕ → DatagramSocket H → Result ℕ
  or_else_transfer (ok bytes) s = ok bytes
  or_else_transfer (err error) s =
      if s.is_non_blocking || (not (eq_code error try_again) && not (eq_code error would_block))
      then ok 0
      else err default_error

  unfoldable pub datagram_send_some : Result ℕ → DatagramSocket H → Result ℕ
  unfolding datagram_send_possible or_else_transfer
  datagram_send_some answer s =
      if not s.has_default_peer then err no_default_peer else elim (datagram_send_possible s) [
        | err error ↦ err error
        | ok done ↦ or_else_transfer answer s
      ]

  unfoldable pub datagram_receive_some : Result ℕ → DatagramSocket H → Result ℕ
  unfolding datagram_recv_possible or_else_transfer
  datagram_receive_some answer s = elim (datagram_recv_possible s) [
    | err error ↦ err error
    | ok done ↦ or_else_transfer answer s
  ]

  -- `ReceiveAsync`; recv_ongoing is set and reset.
  unfoldable pub datagram_receive_async :
      BufferView → H → DatagramSocket H → Result (Unit {0}) × DatagramSocket H × List (Effect H)
  unfolding datagram_recv_possible
  datagram_receive_async view h s =
      if not s.has_reactor
      then (err reactor_not_available, s, [])
      else if not s.is_non_blocking
      then (err socket_in_blocking_mode, s, [])
      else elim (datagram_recv_possible s) [
        | err error ↦ (err error, s, [])
        | ok done ↦ (
          ok tt,
          record s { recv_ongoing = false; recv_view = some view; recv_handler = some h },
          observes_read true ∷ [],
        )
      ]

  -- `HandleReceive`: the handler stays in place.
  unfoldable pub handle_datagram_receive :
      Result ℕ → DatagramSocket H → Option (DatagramSocket H × List (Effect H))
  handle_datagram_receive answer s = elim s.recv_handler [
    | none ↦ none
    | some h ↦
        some (s, calls h answer ∷ (if not s.recv_ongoing then observes_read false ∷ [] else []))
  ]

  -- `HandleSend`, which asks recv_ongoing.
  unfoldable pub handle_datagram_send :
      Result ℕ → DatagramSocket H → Option (DatagramSocket H × List (Effect H))
  handle_datagram_send answer s = elim s.send_handler [
    | none ↦ none
    | some h ↦
        some (s, calls h answer ∷ (if not s.recv_ongoing then observes_write false ∷ [] else []))
  ]

  -- `OnReactorEventImpl`, by the answers of recv(2) and send(2).
  unfoldable pub on_datagram_event :
      Events → Result ℕ → Result ℕ → DatagramSocket H → Option (DatagramSocket H × List (Effect H))
  unfolding handle_datagram_receive handle_datagram_send
  on_datagram_event events received sent s = do
    (s', effects) ←
        if has_read_event events then handle_datagram_receive received s else some (s, [])
    (s'', more) ← if has_write_event events then handle_datagram_send sent s' else some (s', [])
    some (s'', effects ++ more)
