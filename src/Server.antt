-- ===== src/Server.antt =====
-- include/asrt/client_server/server_interface.hpp and include/asrt/impl/server_interface.ipp: the
-- connections of a server. A connection is its id; whether it is connected, and what the server's
-- owner answers in OnClientConnect, are arguments.
pub mod Held
pub mod Tests
use asrt.Base.{
  ℕ, suc, ◌+◌, ◌%◌, ◌^◌, Bool, true, false, ◌&&◌, Option, none, some, List, [], ◌∷◌, ◌++◌, map,
  if◌then◌else◌,
}
use asrt.ErrorCode.{ErrorCode, Result, ok, err, is_connection_down}
use asrt.Util.{find_value, quick_remove_one_if}

-- What the server does to its connections, and the callbacks of its owner.
pub data Effect : Type 0 where
  accepts : ℕ → Effect
  initiates_handshake : ℕ → Effect
  sends : ℕ → Effect
  on_client_disconnect : ℕ → Effect
  not_found : ℕ → Effect

-- `pending` is the id of the connection that the acceptor will complete.
pub record Server : Type 0 where
  pub connections : List ℕ
  pub next_client_id : ℕ
  pub pending : ℕ

-- `WaitForClientConnections`, up to the call of its handler. The counter is a std::size_t, and a connection's id
-- is narrowed to 32 bits.
unfoldable pub wait_for_client_connections : Server → Server × List Effect
wait_for_client_connections s = (
  record s {
    pending = s.next_client_id % 2 ^ 32;
    next_client_id = (s.next_client_id + 1) % 2 ^ 64;
  },
  accepts (s.next_client_id % 2 ^ 32) ∷ [],
)

-- A server behind `Run`.
unfoldable pub run_server : Server × List Effect
unfolding wait_for_client_connections
run_server =
    wait_for_client_connections (record { connections = []; next_client_id = 0; pending = 0 })

-- The handler of `WaitForClientConnections`.
unfoldable pub on_accepted : Result (Unit {0}) → Bool → Server → Server × List Effect
unfolding wait_for_client_connections
on_accepted (err error) is_welcome s = wait_for_client_connections s
on_accepted (ok done) false s = wait_for_client_connections s
on_accepted (ok done) true s =
    let (s', effects) =
      wait_for_client_connections (record s { connections = s.connections ++ s.pending ∷ [] }) in
    (s', initiates_handshake s.pending ∷ effects)

unfoldable pub remove_connection : ℕ → Server → Server
unfolding quick_remove_one_if
remove_connection id s = record s { connections = quick_remove_one_if id s.connections }

unfoldable pub on_connection_error : ℕ → ErrorCode → Server → Server × List Effect
unfolding remove_connection
on_connection_error id ec s =
    (remove_connection id s, (if is_connection_down ec then on_client_disconnect id ∷ [] else []))

-- `DoMessageClient`.
unfoldable pub do_message_client : (ℕ → Bool) → ℕ → Effect
do_message_client is_connected id = if is_connected id then sends id else on_client_disconnect id

unfoldable pub message_client_by_id : (ℕ → Bool) → ℕ → Server → Effect
unfolding do_message_client
message_client_by_id is_connected id s = elim (find_value id s.connections) [
  | none ↦ not_found id
  | some position ↦ do_message_client is_connected id
]

unfoldable pub message_all_clients : (ℕ → Bool) → Server → List Effect
unfolding do_message_client
message_all_clients is_connected s = map (do_message_client is_connected) s.connections
