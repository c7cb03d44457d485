-- ===== src/Server/Tests.antt =====
-- A server that accepts three connections, one of which fails.
use asrt.Base.{ℕ, ◌≡◌, refl, Bool, true, false, ◌==◌, List, [], ◌∷◌, if◌then◌else◌, arith}
use asrt.ErrorCode.{ok, err, connection_reset, no_descriptors, end_of_file}
use asrt.Util.Removal.{count, one_if}
use asrt.Server.{run_server, message_client_by_id, do_message_client, not_found}
use asrt.Server.Held.{Move, accepted, fails, run, is_held, run-is_held}

abbrev course : List Move
course =
    accepted (ok tt) true
    ∷ accepted (err no_descriptors) true
    ∷ accepted (ok tt) true
    ∷ fails 0 connection_reset
    ∷ accepted (ok tt) false
    ∷ accepted (ok tt) true
    ∷ fails 9 end_of_file
    ∷ []

abbrev two_connected : ℕ → Bool
two_connected id = id == 2

run-is_held_example :
    let s = run course run_server.0 in
    let held = is_held 2 course 0 false in
    (count 2 s.connections ≡ one_if held)
    × (message_client_by_id two_connected 2 s
        ≡ (if held then do_message_client two_connected 2 else not_found 2))
run-is_held_example = run-is_held course 2 two_connected (omega arith)

still_held : is_held 2 course 0 false ≡ true
unfolding is_held
still_held = refl
