-- ===== src/Socket/Datagram/Latest.antt =====
-- Which handlers a datagram socket calls.
use asrt.Base.{
  ℕ, ◌≡◌, refl, true, false, ◌>>=◌, Option, none, some, List, [], ◌∷◌, ◌++◌, All, arith,
}
use asrt.ErrorCode.{Result, ok, err}
use asrt.NetBuffer.{BufferView}
use asrt.Reactor.Events.{Events, has_read_event, has_write_event}
use asrt.Socket.Datagram.{
  DatagramSocket, Effect, calls, observes_read, datagram_receive_async, datagram_recv_possible,
  on_datagram_event, handle_datagram_receive,
}

pub data Move (H : Type 0) : Type 0 where
  receives : BufferView → H → Move H
  read_event : Events → Result ℕ → Result ℕ → Move H

-- The reactor reports reads and no writes.
abbrev pub IsRead : {H : Type 0} → Move H → Type 0
IsRead (receives view h) = Unit
IsRead (read_event events received sent) =
    (has_read_event events ≡ true) × (has_write_event events ≡ false)

module _ {H : Type 0} where
  abbrev called : List (Effect H) → List H
  called [] = []
  called (calls h result ∷ effects) = h ∷ called effects
  called (_ ∷ effects) = called effects

  -- The handlers called; `none` where one of them is empty or a ReceiveAsync is refused.
  unfoldable pub run : List (Move H) → DatagramSocket H → Option (List H)
  unfolding datagram_receive_async on_datagram_event
  run [] s = some []
  run (receives view h ∷ ms) s =
      let (result, s', effects) = datagram_receive_async view h s in
      elim result [ err error ↦ none | ok done ↦ run ms s' ]
  run (read_event events received sent ∷ ms) s = do
    (s', effects) ← on_datagram_event events received sent s
    rest ← run ms s'
    some (called effects ++ rest)

  -- A register that holds the latest handler, which every event reads.
  unfoldable pub latest : List (Move H) → Option H → Option (List H)
  latest [] held = some []
  latest (receives view h ∷ ms) held = latest ms (some h)
  latest (read_event events received sent ∷ ms) held = do
    h ← held
    rest ← latest ms held
    some (h ∷ rest)

  accepted :
      (view : BufferView) (h : H) (s : DatagramSocket H)
      → s.is_open ≡ true
      → s.has_reactor ≡ true
      → s.is_non_blocking ≡ true
      → s.recv_ongoing ≡ false
      → datagram_receive_async view h s ≡ (
        ok tt,
        record s { recv_ongoing = false; recv_view = some view; recv_handler = some h },
        observes_read true ∷ [],
      )
  unfolding datagram_receive_async datagram_recv_possible
  accepted view h s opened reactor nonblocking idle = ground arith

  reads_once :
      (events : Events) (received sent : Result ℕ) (s : DatagramSocket H)
      → s.recv_ongoing ≡ false
      → has_read_event events ≡ true
      → has_write_event events ≡ false
      → on_datagram_event events received sent s
        ≡ (do h ← s.recv_handler; some (s, calls h received ∷ observes_read false ∷ []))
  unfolding on_datagram_event handle_datagram_receive
  reads_once events received sent s idle read write = ground arith

  -- An open non-blocking socket with a reactor treats its receive handler as a register: every ReceiveAsync
  -- succeeds and takes the place of the one before it, which is then never called again, and every read
  -- event calls the handler of the latest ReceiveAsync, also when it was called before; before the first
  -- one, an event calls an empty handler.
  pub run-latest :
      (ms : List (Move H)) (s : DatagramSocket H)
      → s.is_open ≡ true
      → s.has_reactor ≡ true
      → s.is_non_blocking ≡ true
      → s.recv_ongoing ≡ false
      → All IsRead ms
      → run ms s ≡ latest ms s.recv_handler
  unfolding run latest
  run-latest [] s opened reactor nonblocking idle reads = refl
  run-latest (receives view h ∷ ms) s opened reactor nonblocking idle (_, reads) =
      let s' : DatagramSocket H = record s {
        recv_ongoing = false;
        recv_view = some view;
        recv_handler = some h;
      } in
      let ih = run-latest ms s' opened reactor nonblocking refl reads in
      ground (arith, ih, accepted view h s opened reactor nonblocking idle)
  run-latest (read_event events received sent ∷ ms) s opened reactor nonblocking idle
        ((read, write), reads) =
      let ih = run-latest ms s opened reactor nonblocking idle reads in
      ground (arith, ih, reads_once events received sent s idle read write)
