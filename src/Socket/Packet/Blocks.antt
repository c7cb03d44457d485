-- ===== src/Socket/Packet/Blocks.antt =====
-- The blocks of a mapped ring under every course of ReceiveBlockAsync, of read events, and of blocks that
-- the kernel fills. What a handler does while it runs are moves behind its event.
use asrt.Base.{
  ℕ, ◌+◌, ◌%◌, ◌<◌, ◌≡◌, ◌≢◌, refl, Bool, true, false, none, some, List, [], ◌∷◌, append-nil, All,
  ◌⊎◌, inl, length, length-set, get_elem?, get_elem?-of_lt, set, ◌∙◌, if◌then◌else◌, arith,
}
use asrt.Base.Course.{Stepped, course, IsNotified, IsAnswered, IsAnswered-of, course-IsNotified}
use asrt.ErrorCode.{Result, ok, err}
use asrt.Reactor.Events.{Events, has_write_event}
use asrt.Socket.Packet.{
  PacketSocket, Effect, calls, calls_block, posts_block, receive_block_async, packet_recv_possible,
  handle_block_receive, hand_over_block, increment_and_check, increment_block_index,
  on_packet_event, on_packet_write, on_packet_read, is_mmap_enabled,
}

pub data Move (H : Type 0) : Type 0 where
  receives_block : H → Move H
  event : Events → Move H
  kernel_fills : ℕ → Move H

module _ {H : Type 0} where
  -- The handlers that a step calls or posts.
  abbrev pub notified : List (Effect H) → List H
  notified [] = []
  notified (calls h result ∷ effects) = h ∷ notified effects
  notified (calls_block h index ∷ effects) = h ∷ notified effects
  notified (posts_block h index ∷ effects) = h ∷ notified effects
  notified (_ ∷ effects) = notified effects

  abbrev started : H → Result (Unit {0}) → List H
  started h (ok done) = h ∷ []
  started h (err error) = []

  abbrev pub nothing_more : PacketSocket H → PacketSocket H
  nothing_more s = s

  -- Events have no write, so that send(2) is not called, nor recv(2) with a ring.
  unfoldable pub step : Move H → PacketSocket H → Stepped (PacketSocket H) H
  unfolding receive_block_async on_packet_event
  step (receives_block h) s = elim (receive_block_async h s) [
    | none ↦ none
    | some (result, s', effects) ↦ some (started h result, s', notified effects)
  ]
  step (event events) s = elim (on_packet_event events (ok 0) (ok 0) nothing_more nothing_more s) [
    | none ↦ none
    | some (s', effects) ↦ some ([], s', notified effects)
  ]
  step (kernel_fills block) s = some ([], record s { ring = set s.ring block true }, [])

  abbrev pub IsExpected : Move H → Type 0
  IsExpected (event events) = has_write_event events ≡ false
  IsExpected _ = Unit

  -- The handler that waits for a block.
  abbrev pub held : PacketSocket H → List H
  held s = if s.recv_ongoing then elim s.recv_block_handler [ none ↦ [] | some h ↦ h ∷ [] ] else []

  -- The current block is one of the ring.
  abbrev pub IsInRing : PacketSocket H → Type 0
  IsInRing s = (length s.ring ≡ s.total_block_num) × (s.current_block_index < s.total_block_num)

  -- A receive under way has a handler, and no block is pending beside it.
  abbrev pub IsSound : PacketSocket H → Type 0
  IsSound s =
      IsInRing s
      × (is_mmap_enabled s.mmap_mode ≡ true)
      × ((s.recv_ongoing ≡ false) ⊎ (s.recv_block_handler ≢ none) × (s.block_read_pending ≡ false))

  -- The current block and the next one.
  pub two_blocks :
      (s : PacketSocket H)
      → IsInRing s
      → let next = (s.current_block_index + 1) % s.total_block_num in
        (next < s.total_block_num)
        × ((now : Bool) × (get_elem? s.ring s.current_block_index ≡ some now))
        × ((later : Bool) × (get_elem? s.ring next ≡ some later))
  two_blocks s (size, inside) =
      let next = (s.current_block_index + 1) % s.total_block_num in
      (
        omega arith,
        get_elem?-of_lt s.ring s.current_block_index (omega arith),
        get_elem?-of_lt s.ring next (omega arith),
      )

  receive-IsNotified :
      (h : H) (s : PacketSocket H)
      → IsSound s
      → IsNotified held IsSound s (step (receives_block h) s)
  unfolding step receive_block_async packet_recv_possible
  receive-IsNotified h s (inside, enabled, free) =
      let (bound, (now, e), more) = two_blocks s inside in ground (arith, append-nil (held s))

  event-IsNotified :
      (events : Events) (s : PacketSocket H)
      → IsSound s
      → has_write_event events ≡ false
      → IsNotified held IsSound s (step (event events) s)
  unfolding step on_packet_event on_packet_write on_packet_read handle_block_receive hand_over_block
      increment_and_check increment_block_index
  event-IsNotified events s (inside, enabled, free) reads =
      let (bound, (now, e), (later, e')) = two_blocks s inside in
      ground (arith, append-nil (held s), length-set s.ring s.current_block_index false)

  fills-IsNotified :
      (block : ℕ) (s : PacketSocket H)
      → IsSound s
      → IsNotified held IsSound s (step (kernel_fills block) s)
  unfolding step
  fills-IsNotified block s ((size, inside), enabled, free) =
      (((length-set s.ring block true ∙ size, inside), enabled, free), append-nil (held s))

  step-IsNotified :
      (m : Move H) (s : PacketSocket H)
      → IsSound s
      → IsExpected m
      → IsNotified held IsSound s (step m s)
  step-IsNotified (receives_block h) s sound expected = receive-IsNotified h s sound
  step-IsNotified (event events) s sound expected = event-IsNotified events s sound expected
  step-IsNotified (kernel_fills block) s sound expected = fills-IsNotified block s sound

  -- Where the ring is mapped, the current block is one of it and no receive is under way, no call of
  -- ReceiveBlockAsync and no event without a write reads a block outside the ring or calls an empty
  -- handler, in whatever order the kernel fills blocks, and the handlers of the calls that succeed are called or posted in the order
  -- of these calls and each once, except that the last one may still wait.
  pub blocks-IsAnswered :
      (ms : List (Move H)) (s : PacketSocket H)
      → IsInRing s
      → is_mmap_enabled s.mmap_mode ≡ true
      → s.recv_ongoing ≡ false
      → All IsExpected ms
      → IsAnswered held IsSound (course step ms s)
  blocks-IsAnswered ms s inside enabled idle expected =
      IsAnswered-of held IsSound s (course step ms s) (rw idle refl) (
        course-IsNotified step held IsSound IsExpected step-IsNotified ms s
          (inside, enabled, inl idle) expected)
