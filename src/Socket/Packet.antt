-- ===== src/Socket/Packet.antt =====
-- include/asrt/socket/basic_packet_socket.hpp and include/asrt/impl/basic_packet_socket.ipp: a socket of
-- whole frames. Packets can come in blocks of a ring that is shared with the kernel: a block is `true`
-- while its status is TP_STATUS_USER, and the ring is empty while no memory is mapped. `H` is the type of
-- handlers. A result `none` stands for an access outside the ring, a remainder by zero, and the call of
-- an empty handler.
pub mod Setup
pub mod Blocks
pub mod Polling
pub mod Errors
pub mod Tests
use asrt.Base.{
  ℕ, suc, ◌+◌, ◌%◌, Bool, true, false, not, ◌&&◌, ◌||◌, Option, none, some, List, [], ◌∷◌, ◌++◌,
  ◌==◌, ◌>>=◌, get_elem?, set, if◌then◌else◌,
}
use asrt.ErrorCode.{
  Result, ok, err, eq_code, try_again, would_block, socket_not_open, receive_operation_ongoing,
  default_error,
}
use asrt.NetBuffer.{BufferView}
use asrt.Reactor.Events.{Events, has_read_event, has_write_event}

pub data PacketMmapMode : Type 0 where
  mmap_disabled mmap_rx mmap_tx mmap_tx_rx : PacketMmapMode

-- What the socket asks of the reactor and the executor, and the handlers that it calls. A block is its
-- index in the ring; `consumes` gives it back to the kernel.
pub data Effect (H : Type 0) : Type 0 where
  read_operation_started read_ignored write_ignored : Effect H
  calls : H → Result ℕ → Effect H
  calls_block posts_block : H → ℕ → Effect H
  consumes : ℕ → Effect H

pub record PacketSocket (H : Type 0) : Type 0 where
  pub is_open : Bool
  pub recv_ongoing : Bool
  pub send_ongoing : Bool
  pub block_read_pending : Bool
  pub send_handler : Option H
  pub recv_handler : Option H
  pub recv_block_handler : Option H
  pub recv_view : Option BufferView
  pub mmap_mode : PacketMmapMode
  pub current_block_index : ℕ
  pub total_block_num : ℕ
  pub ring : List Bool

-- kDefaultBlockNum.
abbrev pub default_block_num : ℕ
default_block_num = 64

abbrev pub new_packet_socket : (H : Type 0) → PacketSocket H
new_packet_socket H = record {
  is_open = false;
  recv_ongoing = false;
  send_ongoing = false;
  block_read_pending = false;
  send_handler = none;
  recv_handler = none;
  recv_block_handler = none;
  recv_view = none;
  mmap_mode = mmap_disabled;
  current_block_index = 0;
  total_block_num = default_block_num;
  ring = [];
}

unfoldable pub is_mmap_enabled : PacketMmapMode → Bool
is_mmap_enabled mmap_disabled = false
is_mmap_enabled _ = true

abbrev pub Step : Type 0 → Type 0
Step H = Option (PacketSocket H × List (Effect H))

-- The last call of `ReceiveSome`.
or_else_receive : Bool → Result ℕ → Result ℕ
or_else_receive non_blocking (ok received) = ok received
or_else_receive non_blocking (err error) =
    if non_blocking || (not (eq_code error try_again) && not (eq_code error would_block))
    then ok 0
    else err error

module _ {H : Type 0} where
  -- `IncrementBlockIndex`.
  unfoldable pub increment_block_index : PacketSocket H → Option (PacketSocket H)
  increment_block_index s =
      if s.total_block_num == 0
      then none
      else some (record s { current_block_index = (s.current_block_index + 1) % s.total_block_num })

  -- `IncrementAndCheckNextBlockAvailable`.
  unfoldable pub increment_and_check : PacketSocket H → Option (Bool × PacketSocket H)
  unfolding increment_block_index
  increment_and_check s = do
    s' ← increment_block_index s
    ready ← get_elem? s'.ring s'.current_block_index
    some (ready, s')

  -- The base's `CheckSocketOpen`, and `CheckRecvPossible`.
  unfoldable pub packet_recv_possible : PacketSocket H → Result (Unit {0})
  packet_recv_possible s =
      if not s.is_open
      then err socket_not_open
      else if s.recv_ongoing
      then err receive_operation_ongoing
      else ok tt

  -- `CheckSendPossible`, with the error of the source.
  unfoldable pub packet_send_possible : PacketSocket H → Result (Unit {0})
  packet_send_possible s =
      if not s.is_open
      then err socket_not_open
      else if s.send_ongoing
      then err receive_operation_ongoing
      else ok tt

  -- `SendSome`, by the socket's mode and the answer of send(2).
  unfoldable pub packet_send_some : Bool → Result ℕ → PacketSocket H → Result ℕ
  unfolding packet_send_possible
  packet_send_some non_blocking answer s = elim (packet_send_possible s) [
    | err error ↦ err error
    | ok done ↦ elim answer [
      | ok sent ↦ ok sent
      | err error ↦
          if non_blocking || (not (eq_code error try_again) && not (eq_code error would_block))
          then ok 0
          else err default_error
    ]
  ]

  -- `ReceiveSome`, by the socket's mode and the answer of recv(2).
  unfoldable pub packet_receive_some : Bool → Result ℕ → PacketSocket H → Result ℕ
  unfolding packet_recv_possible or_else_receive
  packet_receive_some non_blocking answer s = elim (packet_recv_possible s) [
    | err error ↦ or_else_receive non_blocking (err error)
    | ok done ↦ or_else_receive non_blocking answer
  ]

  unfoldable pub packet_receive_async :
      BufferView → H → PacketSocket H → Result (Unit {0}) × PacketSocket H × List (Effect H)
  unfolding packet_recv_possible
  packet_receive_async view h s = elim (packet_recv_possible s) [
    | err error ↦ (err error, s, [])
    | ok done ↦ (
      ok tt,
      record s { recv_ongoing = true; recv_view = some view; recv_handler = some h },
      read_operation_started ∷ [],
    )
  ]

  -- `ReceiveBlockAsync`.
  unfoldable pub receive_block_async :
      H → PacketSocket H → Option (Result (Unit {0}) × PacketSocket H × List (Effect H))
  unfolding packet_recv_possible
  receive_block_async h s =
      if s.block_read_pending
      then elim (get_elem? s.ring s.current_block_index) [
        | none ↦ none
        | some ready ↦ some (
          ok tt,
          record s { block_read_pending = false },
          posts_block h s.current_block_index ∷ [],
        )
      ]
      else elim (packet_recv_possible s) [
        | err error ↦ some (err error, s, [])
        | ok done ↦ some (
          ok tt,
          record s { recv_ongoing = true; recv_block_handler = some h },
          read_operation_started ∷ [],
        )
      ]

  -- `HandleSend`; `between` is what happens while the handler runs with the mutex free.
  handle_packet_send : Result ℕ → (PacketSocket H → PacketSocket H) → PacketSocket H → Step H
  handle_packet_send answer between s = elim s.send_handler [
    | none ↦ none
    | some h ↦
        some (between (record s { send_handler = none; send_ongoing = false }), calls h answer ∷ [])
  ]

  unfoldable pub handle_packet_receive :
      Result ℕ → (PacketSocket H → PacketSocket H) → PacketSocket H → Step H
  handle_packet_receive answer between s = elim s.recv_handler [
    | none ↦ none
    | some h ↦
        some (between (record s { recv_handler = none; recv_ongoing = false }), calls h answer ∷ [])
  ]

  -- `HandleBlockReceive` of a block that is ready.
  hand_over_block : (PacketSocket H → PacketSocket H) → PacketSocket H → Step H
  unfolding increment_and_check
  hand_over_block between s = do
    (available, s') ←
        increment_and_check (record s { recv_block_handler = none; recv_ongoing = false })
    h ← s.recv_block_handler
    let called = between (record s' { block_read_pending = s'.block_read_pending || available })
    some (
      record called { ring = set called.ring s.current_block_index false },
      calls_block h s.current_block_index ∷ consumes s.current_block_index ∷ [],
    )

  unfoldable pub handle_block_receive : (PacketSocket H → PacketSocket H) → PacketSocket H → Step H
  unfolding hand_over_block
  handle_block_receive between s = do
    ready ← get_elem? s.ring s.current_block_index
    if ready then hand_over_block between s else some (s, read_operation_started ∷ [])

  -- The two halves of `OnReactorEventImpl`.
  on_packet_write : Events → Result ℕ → (PacketSocket H → PacketSocket H) → PacketSocket H → Step H
  unfolding handle_packet_send
  on_packet_write events answer between s =
      if not (has_write_event events)
      then some (s, [])
      else if s.send_ongoing
      then handle_packet_send answer between s
      else some (s, write_ignored ∷ [])

  on_packet_read : Events → Result ℕ → (PacketSocket H → PacketSocket H) → PacketSocket H → Step H
  unfolding handle_packet_receive handle_block_receive
  on_packet_read events answer between s =
      if not (has_read_event events)
      then some (s, [])
      else if not s.recv_ongoing
      then some (s, read_ignored ∷ [])
      else if is_mmap_enabled s.mmap_mode
      then handle_block_receive between s
      else handle_packet_receive answer between s

  -- `OnReactorEventImpl`, by the answers of send(2) and recv(2).
  unfoldable pub on_packet_event :
      Events
      → Result ℕ
      → Result ℕ
      → (PacketSocket H → PacketSocket H)
      → (PacketSocket H → PacketSocket H)
      → PacketSocket H
      → Step H
  unfolding on_packet_write on_packet_read
  on_packet_event events sent received in_send in_receive s = do
    (s', effects) ← on_packet_write events sent in_send s
    (s'', more) ← on_packet_read events received in_receive s'
    some (s'', effects ++ more)
