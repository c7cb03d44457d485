-- ===== src/Socket/Packet/Errors.antt =====
-- What the receive operations of a packet socket do with a pending block, and with errors.
use asrt.Base.{ℕ, ◌≡◌, Bool, true, false, Option, none, some, List, [], ◌∷◌, ◌↔◌, get_elem?, arith}
use asrt.ErrorCode.{ErrorCode, Result, ok, err, is_busy, eq_code, to_underlying}
use asrt.Reactor.Events.{Events, has_read_event, has_write_event}
use asrt.Socket.Packet.{
  PacketSocket, Step, Effect, calls_block, posts_block, consumes, read_operation_started,
  receive_block_async, packet_recv_possible, handle_block_receive, hand_over_block,
  increment_and_check, increment_block_index, on_packet_event, on_packet_write, on_packet_read,
  is_mmap_enabled, packet_receive_some, or_else_receive,
}
use asrt.Socket.Packet.Blocks.{IsInRing, two_blocks}

module _ {H : Type 0} where
  -- ReceiveSome reports an error only where recv(2) would block on a blocking socket: every other error,
  -- that the socket is not open, that a receive is under way, and every other error of recv(2), is
  -- reported as a success with zero bytes.
  pub receive_some_errors :
      (non_blocking : Bool) (answer : Result ℕ) (s : PacketSocket H) (e : ErrorCode)
      → (packet_receive_some non_blocking answer s ≡ err e) ↔ (
          (non_blocking ≡ false)
          × (is_busy e ≡ true)
          × (packet_recv_possible s ≡ ok tt)
          × (answer ≡ err e))
  unfolding packet_receive_some or_else_receive packet_recv_possible is_busy eq_code to_underlying
  receive_some_errors non_blocking answer s e = ground arith

  abbrev pub effects_of : Step H → Option (List (Effect H))
  effects_of none = none
  effects_of (some (s, effects)) = some effects

  -- A block that is handed out from block_read_pending is handed out again. Where a block is pending, and the
  -- current one of the mapped ring is ready, a ReceiveBlockAsync posts its handler with the current
  -- block; it does not give the block back or go on to the next one, so the next ReceiveBlockAsync
  -- waits, and the next read event calls its handler with the same block.
  pub block_handed_out_twice :
      (h g : H) (events : Events) (sent received : Result ℕ)
      (in_send in_receive : PacketSocket H → PacketSocket H) (s : PacketSocket H)
      → IsInRing s
      → is_mmap_enabled s.mmap_mode ≡ true
      → s.is_open ≡ true
      → s.recv_ongoing ≡ false
      → s.block_read_pending ≡ true
      → get_elem? s.ring s.current_block_index ≡ some true
      → has_write_event events ≡ false
      → has_read_event events ≡ true
      → let i = s.current_block_index in
        let s' = record s { block_read_pending = false } in
        let s'' = record s' { recv_ongoing = true; recv_block_handler = some g } in
        (receive_block_async h s ≡ some (ok tt, s', posts_block h i ∷ []))
        × (receive_block_async g s' ≡ some (ok tt, s'', read_operation_started ∷ []))
        × (effects_of (on_packet_event events sent received in_send in_receive s'')
            ≡ some (calls_block g i ∷ consumes i ∷ []))
  unfolding receive_block_async packet_recv_possible on_packet_event on_packet_write on_packet_read
      handle_block_receive hand_over_block increment_and_check increment_block_index
  block_handed_out_twice h g events sent received in_send in_receive s inside enabled opened idle
        pending ready writes reads =
      let (bound, now, (later, e)) = two_blocks s inside in
      (ground arith, ground arith, ground arith)
