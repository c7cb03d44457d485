-- ===== src/Connection/Tests.antt =====
-- A client that sends before and after it is validated.
use asrt.Base.{ℕ, ◌≡◌, refl, true, some, List, [], ◌∷◌}
use asrt.ErrorCode.{
  ok, err, not_connected, connection_reset, eq_code, is_unconnected, to_underlying,
}
use asrt.Connection.{Connection, send_sync, send_sync_message, compute_key}
use asrt.Connection.Outbox.{
  Move, sends, completes, continues, validates, new_world, run, Ordered, run-Ordered, send_all,
  unconnected_send_stalls,
}

compute_key_test : compute_key 65535 ≡ 387215975
unfolding compute_key
compute_key_test = refl

abbrev talk : List (Move ℕ)
talk =
    sends 1
    ∷ sends 2
    ∷ validates
    ∷ sends 3
    ∷ sends 4
    ∷ completes (ok 9)
    ∷ sends 5
    ∷ continues
    ∷ completes (err connection_reset)
    ∷ sends 6
    ∷ []

run-Ordered_example : Ordered (run talk (new_world ℕ))
run-Ordered_example = run-Ordered ℕ talk

abbrev idle : Connection ℕ
idle = record { outbox = []; is_connection_validated = true }

unconnected_send_stalls_example :
    let (after, calls) = send_sync_message true 1 (err not_connected) idle in
    (calls ≡ send_sync 1 ∷ [])
    × (send_all (2 ∷ 3 ∷ []) after ≡ some (record idle { outbox = 1 ∷ 2 ∷ 3 ∷ [] }, []))
unconnected_send_stalls_example =
    unconnected_send_stalls 1 not_connected (2 ∷ 3 ∷ []) idle refl refl
      (unfold is_unconnected eq_code to_underlying in refl)
