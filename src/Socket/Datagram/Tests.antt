-- ===== src/Socket/Datagram/Tests.antt =====
-- A datagram socket with two receives.
use asrt.Base.{ℕ, ◌≡◌, refl, true, false, none, List, [], ◌∷◌}
use asrt.ErrorCode.{ok, err, connection_refused}
use asrt.NetBuffer.{BufferView}
use asrt.Reactor.Events.{of_mask, has_read_event, has_write_event, has_event}
use asrt.Socket.Datagram.{DatagramSocket}
use asrt.Socket.Datagram.Latest.{Move, receives, read_event, run, latest, run-latest}

abbrev open_datagram : DatagramSocket ℕ
open_datagram = record {
  is_open = true;
  has_reactor = true;
  is_non_blocking = true;
  recv_ongoing = false;
  send_ongoing = false;
  has_default_peer = false;
  recv_view = none;
  send_handler = none;
  recv_handler = none;
}

abbrev buffer : BufferView
buffer = record { start = 0; size = 1500 }

abbrev two_receives : List (Move ℕ)
two_receives =
    receives buffer 1
    ∷ receives buffer 2
    ∷ read_event (of_mask 1) (ok 10) (ok 0)
    ∷ read_event (of_mask 1) (err connection_refused) (ok 0)
    ∷ []

run-latest_example : run two_receives open_datagram ≡ latest two_receives none
unfolding has_read_event has_write_event has_event
run-latest_example =
    run-latest two_receives open_datagram refl refl refl refl
      (tt, (tt, ((refl, refl), ((refl, refl), tt))))
