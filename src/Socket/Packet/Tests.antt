-- ===== src/Socket/Packet/Tests.antt =====
-- A packet socket with a ring of three blocks.
use asrt.Base.{ℕ, ◌≡◌, refl, true, false, some, List, [], ◌∷◌, arith}
use asrt.Base.Course.{course, IsAnswered}
use asrt.ErrorCode.{Result, ok, err, connection_reset}
use asrt.Reactor.Events.{of_mask, has_read_event, has_write_event, has_event}
use asrt.Socket.Packet.{
  PacketSocket, new_packet_socket, mmap_rx, is_mmap_enabled, receive_block_async, posts_block,
  calls_block, consumes, read_operation_started, on_packet_event,
}
use asrt.Socket.Packet.Blocks.{
  Move, receives_block, event, kernel_fills, step, held, IsSound, nothing_more, blocks-IsAnswered,
}
use asrt.Socket.Packet.Errors.{block_handed_out_twice, effects_of}
use asrt.Socket.Packet.Polling.{Round, IsInTurn, poll_receive_block_sync, polls-IsInTurn}

abbrev three_blocks : PacketSocket ℕ
three_blocks = record (new_packet_socket ℕ) {
  is_open = true;
  mmap_mode = mmap_rx;
  total_block_num = 3;
  ring = false ∷ false ∷ true ∷ [];
}

abbrev two_receives : List (Move ℕ)
two_receives =
    receives_block 10
    ∷ event (of_mask 1)
    ∷ kernel_fills 0
    ∷ kernel_fills 1
    ∷ event (of_mask 1)
    ∷ receives_block 20
    ∷ receives_block 30
    ∷ []

blocks-IsAnswered_example : IsAnswered held IsSound (course step two_receives three_blocks)
unfolding is_mmap_enabled has_write_event has_event
blocks-IsAnswered_example =
    blocks-IsAnswered two_receives three_blocks (refl, omega arith) refl refl
      (tt, (refl, (tt, (tt, (refl, (tt, (tt, tt)))))))

-- Its current block is the last one.
abbrev last_pending : PacketSocket ℕ
last_pending = record three_blocks { current_block_index = 2; block_read_pending = true }

block_handed_out_twice_example :
    let s' = record last_pending { block_read_pending = false } in
    let s'' = record s' { recv_ongoing = true; recv_block_handler = some 8 } in
    (receive_block_async 7 last_pending ≡ some (ok tt, s', posts_block 7 2 ∷ []))
    × (receive_block_async 8 s' ≡ some (ok tt, s'', read_operation_started ∷ []))
    × (effects_of (on_packet_event (of_mask 1) (ok 0) (ok 0) nothing_more nothing_more s'')
        ≡ some (calls_block 8 2 ∷ consumes 2 ∷ []))
unfolding is_mmap_enabled has_write_event has_read_event has_event
block_handed_out_twice_example =
    block_handed_out_twice 7 8 (of_mask 1) (ok 0) (ok 0) nothing_more nothing_more last_pending
      (refl, omega arith) refl refl refl refl refl refl refl

abbrev reset_by_peer : Result ℕ
reset_by_peer = err connection_reset

abbrev rounds : List Round
rounds =
    record { fills = 0 ∷ []; poll_answer = ok tt }
    ∷ record { fills = []; poll_answer = ok tt }
    ∷ record { fills = 1 ∷ 2 ∷ []; poll_answer = ok tt }
    ∷ []

polls-IsInTurn_example :
    IsInTurn three_blocks (poll_receive_block_sync (ok tt) 5 rounds three_blocks)
polls-IsInTurn_example = polls-IsInTurn (ok tt) 5 rounds three_blocks (refl, omega arith)
