-- ===== src/Server/Held.antt =====
-- Which connections a server holds.
use asrt.Base.{
  ℕ, zero, suc, ◌+◌, ◌^◌, length, ◌<◌, ◌≡◌, refl, Bool, true, false, ◌&&◌, some, List, [], ◌∷◌,
  ◌++◌, ◌==◌, ◌⊎◌, inl, inr, Option-cases, if◌then◌else◌, arith,
}
use asrt.ErrorCode.{ErrorCode, Result, ok, err}
use asrt.Util.{find_value}
use asrt.Util.Removal.{count, one_if, count-quick_remove_one_if, find_value-none}
use asrt.Server.{
  Server, not_found, run_server, on_accepted, on_connection_error, wait_for_client_connections,
  remove_connection, message_client_by_id, do_message_client,
}

-- The end of an accept, with the owner's answer, and an error of a connection.
pub data Move : Type 0 where
  accepted : Result (Unit {0}) → Bool → Move
  fails : ℕ → ErrorCode → Move

unfoldable pub run : List Move → Server → Server
unfolding on_accepted on_connection_error
run [] s = s
run (accepted result is_welcome ∷ ms) s = run ms (on_accepted result is_welcome s).0
run (fails id ec ∷ ms) s = run ms (on_connection_error id ec s).0

abbrev is_ok : Result (Unit {0}) → Bool
is_ok (ok done) = true
is_ok (err error) = false

-- The abstract server, which has no vector: connection `n` is the one of accept number `n`; it is held
-- from then on, if the accept succeeds and the owner welcomes it, until its first error. `n` accepts have
-- ended, and `held` tells whether `id` is held by then.
unfoldable pub is_held : ℕ → List Move → ℕ → Bool → Bool
is_held id [] n held = held
is_held id (accepted result is_welcome ∷ ms) n held =
    is_held id ms (suc n) (if n == id then is_ok result && is_welcome else held)
is_held id (fails failed ec ∷ ms) n held = is_held id ms n (if failed == id then false else held)

count-snoc : (y x : ℕ) (xs : List ℕ) → count y (xs ++ x ∷ []) ≡ count y xs + one_if (x == y)
count-snoc y x [] = omega arith
count-snoc y x (z ∷ zs) = omega (arith, count-snoc y x zs)

-- `id` is listed as often as the abstract server says, and no id is listed that was not given yet.
abbrev IsHeld : ℕ → Server → ℕ → Bool → Type 0
IsHeld id s n held =
    (s.pending ≡ n)
    × (s.next_client_id ≡ suc n)
    × (count id s.connections ≡ one_if held)
    × ((held ≡ false) ⊎ (id < n))

accepted-IsHeld :
    (id : ℕ) (result : Result (Unit {0})) (is_welcome : Bool) (s : Server) (n : ℕ) (held : Bool)
    → n + 2 < 2 ^ 32
    → IsHeld id s n held
    → IsHeld id
        (on_accepted result is_welcome s).0
        (suc n)
        (if n == id then is_ok result && is_welcome else held)
unfolding on_accepted wait_for_client_connections
accepted-IsHeld id result is_welcome s n held small h =
    ground (arith, count-snoc id s.pending s.connections)

fails-IsHeld :
    (id failed : ℕ) (ec : ErrorCode) (s : Server) (n : ℕ) (held : Bool)
    → IsHeld id s n held
    → IsHeld id (on_connection_error failed ec s).0 n (if failed == id then false else held)
unfolding on_connection_error remove_connection
fails-IsHeld id failed ec s n held h =
    ground (arith, count-quick_remove_one_if failed id s.connections)

run-IsHeld :
    (id : ℕ) (ms : List Move) (s : Server) (n : ℕ) (held : Bool)
    → n + length ms + 1 < 2 ^ 32
    → IsHeld id s n held
    → count id (run ms s).connections ≡ one_if (is_held id ms n held)
unfolding run is_held
run-IsHeld id [] s n held small h = h.2
run-IsHeld id (accepted result is_welcome ∷ ms) s n held small h =
    run-IsHeld id ms (on_accepted result is_welcome s).0 (suc n) _ (omega arith)
      (accepted-IsHeld id result is_welcome s n held (omega arith) h)
run-IsHeld id (fails failed ec ∷ ms) s n held small h =
    run-IsHeld id ms (on_connection_error failed ec s).0 n _ (omega arith)
      (fails-IsHeld id failed ec s n held h)

count-find_value : (x i : ℕ) (xs : List ℕ) → find_value x xs ≡ some i → 0 < count x xs
count-find_value x i [] e = ground arith
count-find_value x zero (y ∷ ys) e = ground arith
count-find_value x (suc i) (y ∷ ys) e = ground (arith, count-find_value x i ys)

-- Behind every course of fewer than 2^32 - 1 accepts and connection errors in any order, in which the ids of
-- connections do not wrap, the server holds a connection once
-- if the abstract server holds it, and not otherwise; and MessageClientById sends to it, or reports its
-- disconnection where its socket is not connected, exactly if it is held.
pub run-is_held :
    (ms : List Move) (id : ℕ) (is_connected : ℕ → Bool)
    → length ms + 1 < 2 ^ 32
    → let s = run ms run_server.0 in
      let held = is_held id ms 0 false in
      (count id s.connections ≡ one_if held)
      × (message_client_by_id is_connected id s
          ≡ (if held then do_message_client is_connected id else not_found id))
unfolding run_server wait_for_client_connections message_client_by_id
run-is_held ms id is_connected small =
    let s = run ms run_server.0 in
    let counted =
      run-IsHeld id ms run_server.0 0 false (omega arith) (refl, refl, refl, inl refl) in
    (
      counted,
      elim (Option-cases (find_value id s.connections)) [
        | inl absent ↦ ground (arith, find_value-none id s.connections absent, counted)
        | inr (i, found) ↦ ground (arith, count-find_value id i s.connections found, counted)
      ],
    )
