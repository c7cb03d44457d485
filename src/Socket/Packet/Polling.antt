-- ===== src/Socket/Packet/Polling.antt =====
-- `PollReceiveBlockSync` of a packet socket. Its loop is a list of rounds, behind which a stop is requested:
-- each has the blocks that the kernel fills before the look at the ring, and the answer of poll(2).
use native.Mathlib.Nat.{mod-add-mod, mod-eq_of_lt}
use asrt.Base.{
  ℕ, zero, suc, ◌+◌, ◌%◌, ◌==◌, ◌<◌, ◌≡◌, ◌∙◌, refl, sym, ap, Bool, true, false, Option, none, some,
  List, [], ◌∷◌, length, length-set, get_elem?, get_elem?-of_lt, set, arith,
}
use asrt.ErrorCode.{ErrorCode, Result, ok, err, receive_operation_ongoing}
use asrt.Socket.Packet.{
  PacketSocket, Effect, calls_block, consumes, increment_block_index, packet_recv_possible,
}
use asrt.Socket.Packet.Blocks.{IsInRing}

pub record Round : Type 0 where
  pub fills : List ℕ
  pub poll_answer : Result (Unit {0})

abbrev pub fill_all : List ℕ → List Bool → List Bool
fill_all [] ring = ring
fill_all (block ∷ blocks) ring = fill_all blocks (set ring block true)

abbrev pub Polled : Type 0 → Type 0
Polled H = Option (Result (Unit {0}) × PacketSocket H × List (Effect H))

-- `n` blocks of a ring of `total`, from block `i` on.
abbrev pub turn : ℕ → ℕ → ℕ → List ℕ
turn total i zero = []
turn total i (suc n) = i ∷ turn total ((i + 1) % total) n

length-fill_all : (blocks : List ℕ) (ring : List Bool) → length (fill_all blocks ring) ≡ length ring
length-fill_all [] ring = refl
length-fill_all (block ∷ blocks) ring =
    length-fill_all blocks (set ring block true) ∙ length-set ring block true

next_index : (i n total : ℕ) → ((i + 1) % total + n) % total ≡ (i + suc n) % total
next_index i n total =
    let e : i + 1 + n ≡ i + suc n = omega arith in
    mod-add-mod (i + 1) total n ∙ ap (λ k. k % total) e

stays : (i total : ℕ) → i < total → i ≡ (i + 0) % total
stays i total inside =
    let e : i + 0 ≡ i = omega arith in sym (ap (λ k. k % total) e ∙ mod-eq_of_lt inside)

module _ {H : Type 0} where
  -- The loop.
  unfoldable pub poll_rounds : H → List Round → PacketSocket H → Polled H
  unfolding increment_block_index
  poll_rounds h [] s = some (ok tt, s, [])
  poll_rounds h (r ∷ rs) s =
      let i = s.current_block_index in
      let ring' = fill_all r.fills s.ring in
      elim (get_elem? ring' i) [
        | none ↦ none
        | some false ↦ elim r.poll_answer [
          | err error ↦ some (err error, record s { ring = ring' }, [])
          | ok done ↦ poll_rounds h rs (record s { ring = ring' })
        ]
        | some true ↦ elim (increment_block_index (record s { ring = set ring' i false })) [
          | none ↦ none
          | some s' ↦ elim (poll_rounds h rs s') [
            | none ↦ none
            | some (result, s'', effects) ↦
                some (result, s'', calls_block h i ∷ consumes i ∷ effects)
          ]
        ]
      ]

  abbrev started : PacketSocket H → PacketSocket H
  started s = record s { recv_ongoing = true }

  -- The end of `PollReceiveBlockSync`.
  abbrev ended : Polled H → Polled H
  ended none = none
  ended (some (result, s, effects)) = some (result, record s { recv_ongoing = false }, effects)

  -- `PollReceiveBlockSync`, by the answer of eventfd(2).
  unfoldable pub poll_receive_block_sync :
      Result (Unit {0}) → H → List Round → PacketSocket H → Polled H
  unfolding packet_recv_possible poll_rounds
  poll_receive_block_sync event_fd h rs s = elim (packet_recv_possible s) [
    | err error ↦ some (err error, s, [])
    | ok done ↦ elim event_fd [
      | err error ↦ some (err error, started s, [])
      | ok made ↦ ended (poll_rounds h rs (started s))
    ]
  ]

  -- The blocks that are handed to the handler.
  abbrev pub handed : List (Effect H) → List ℕ
  handed [] = []
  handed (calls_block h i ∷ effects) = i ∷ handed effects
  handed (_ ∷ effects) = handed effects

  -- What a run hands over, and where it leaves the socket.
  abbrev pub IsInTurn : PacketSocket H → Polled H → Type 0
  IsInTurn s none = ⊥
  IsInTurn s (some (result, s', effects)) =
      let i = s.current_block_index in
      let total = s.total_block_num in
      let n = length (handed effects) in
      (handed effects ≡ turn total i n)
      × (s'.current_block_index ≡ (i + n) % total)
      × (s'.total_block_num ≡ total)
      × IsInRing s'

  -- A round that hands over the current block, before those behind it.
  hands_over :
      (h : H) (s : PacketSocket H) (ring : List Bool) (o : Polled H)
      → IsInRing s
      → length ring ≡ s.total_block_num
      → let i = s.current_block_index in
        let s' = record s { ring = ring; current_block_index = (i + 1) % s.total_block_num } in
        IsInTurn s' o
        → IsInTurn s (elim o [
          | none ↦ none
          | some (result, s'', effects) ↦ some (result, s'', calls_block h i ∷ consumes i ∷ effects)
        ])
  hands_over h s ring none inside size fails = elim fails [ ]
  hands_over h s ring (some (result, s'', effects)) inside size (order, index, total, last) =
      let i = s.current_block_index in
      (
        ap (λ blocks. i ∷ blocks) order,
        index ∙ next_index i (length (handed effects)) s.total_block_num,
        total,
        last,
      )

  abbrev filled : Round → PacketSocket H → PacketSocket H
  filled r s = record s { ring = fill_all r.fills s.ring }

  -- A round that finds the current block in state `b`, with what is known of the rounds behind it.
  round-IsInTurn :
      (h : H) (r : Round) (rs : List Round) (s : PacketSocket H) (b : Bool)
      → IsInRing s
      → get_elem? (fill_all r.fills s.ring) s.current_block_index ≡ some b
      → ((s' : PacketSocket H) → IsInRing s' → IsInTurn s' (poll_rounds h rs s'))
      → IsInTurn s (poll_rounds h (r ∷ rs) s)
  unfolding poll_rounds increment_block_index
  round-IsInTurn h r rs s false (size, inside) e later =
      let size' = length-fill_all r.fills s.ring ∙ size in
      rw (e, IsInTurn) (waits r.poll_answer size' (later (filled r s) (size', inside)))
    where
      waits :
          (answer : Result (Unit {0}))
          → length (fill_all r.fills s.ring) ≡ s.total_block_num
          → IsInTurn (filled r s) (poll_rounds h rs (filled r s))
          → IsInTurn s (elim answer [
            | err error ↦ some (err error, filled r s, [])
            | ok done ↦ poll_rounds h rs (filled r s)
          ])
      waits (err error) size' turns =
          (refl, stays s.current_block_index s.total_block_num inside, refl, (size', inside))
      waits (ok done) size' turns = turns
  round-IsInTurn h r rs s true (size, inside) e later =
      let i = s.current_block_index in
      let ring' = set (fill_all r.fills s.ring) i false in
      let size' : length ring' ≡ s.total_block_num =
        length-set (fill_all r.fills s.ring) i false ∙ length-fill_all r.fills s.ring ∙ size in
      let s' : PacketSocket H = record s {
        ring = ring';
        current_block_index = (i + 1) % s.total_block_num;
      } in
      let nonzero : (s.total_block_num == 0) ≡ false = ground arith in
      rw (e, nonzero, IsInTurn)
        (hands_over h s ring' (poll_rounds h rs s') (size, inside) size'
          (later s' (size', omega arith)))

  poll_rounds-IsInTurn :
      (h : H) (rs : List Round) (s : PacketSocket H) → IsInRing s → IsInTurn s (poll_rounds h rs s)
  unfolding poll_rounds
  poll_rounds-IsInTurn h [] s (size, inside) =
      (refl, stays s.current_block_index s.total_block_num inside, refl, (size, inside))
  poll_rounds-IsInTurn h (r ∷ rs) s (size, inside) =
      let ring' = fill_all r.fills s.ring in
      let same = length-fill_all r.fills s.ring in
      let (b, e) = get_elem?-of_lt ring' s.current_block_index (omega (arith, same, size)) in
      round-IsInTurn h r rs s b (size, inside) e (poll_rounds-IsInTurn h rs)

  -- Where the current block is one of the ring, PollReceiveBlockSync reads no block outside it, for every
  -- answer of eventfd(2) and of poll(2) and whatever the kernel fills: its handler is called with
  -- consecutive blocks from the current one on, around the ring, and the current block afterwards is the
  -- one behind the last of them.
  pub polls-IsInTurn :
      (event_fd : Result (Unit {0})) (h : H) (rs : List Round) (s : PacketSocket H)
      → IsInRing s
      → IsInTurn s (poll_receive_block_sync event_fd h rs s)
  unfolding poll_receive_block_sync packet_recv_possible
  polls-IsInTurn event_fd h rs s inside =
      possible (packet_recv_possible s) event_fd (poll_rounds h rs (started s))
        (poll_rounds-IsInTurn h rs (started s) inside)
    where
      ends : (o : Polled H) → IsInTurn (started s) o → IsInTurn s (ended o)
      ends none fails = elim fails [ ]
      ends (some (result, s', effects)) turns = turns

      possible :
          (p fd : Result (Unit {0})) (o : Polled H)
          → IsInTurn (started s) o
          → IsInTurn s (elim p [
            | err error ↦ some (err error, s, [])
            | ok done ↦ elim fd [ err error ↦ some (err error, started s, []) | ok made ↦ ended o ]
          ])
      possible (err error) fd o turns =
          (refl, stays s.current_block_index s.total_block_num inside.1, refl, inside)
      possible (ok done) (err error) o turns =
          (refl, stays s.current_block_index s.total_block_num inside.1, refl, inside)
      possible (ok done) (ok made) o turns = ends o turns

  -- A PollReceiveBlockSync that gets no eventfd leaves the receive ongoing. Where a receive is possible, it returns
  -- that error without a block, and every later receive and poll is refused with
  -- receive_operation_ongoing, although none is under way.
  pub eventfd_failure_sticks :
      (error : ErrorCode) (event_fd : Result (Unit {0})) (h g : H) (rs more : List Round)
      (s : PacketSocket H)
      → packet_recv_possible s ≡ ok tt
      → let s' = record s { recv_ongoing = true } in
        (poll_receive_block_sync (err error) h rs s ≡ some (err error, s', []))
        × (packet_recv_possible s' ≡ err receive_operation_ongoing)
        × (poll_receive_block_sync event_fd g more s'
            ≡ some (err receive_operation_ongoing, s', []))
  unfolding poll_receive_block_sync packet_recv_possible
  eventfd_failure_sticks error event_fd h g rs more s possible =
      (ground arith, ground arith, ground arith)
