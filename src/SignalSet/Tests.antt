-- ===== src/SignalSet/Tests.antt =====
-- A signal set of a reactor that waits for two signals, and one whose wait is cancelled.
use asrt.Base.{ℕ, ◌≡◌, refl, none, some, true, List, [], ◌∷◌}
use asrt.Base.Course.{course, IsAnswered}
use asrt.ErrorCode.{ok, err, try_again, operation_cancelled}
use asrt.Reactor.Events.{of_mask, eq_events}
use asrt.SignalSet.{
  SignalSet, new_set, Read, cancel, on_signal_event, enqueues, removes_monitored_event,
  is_busy_read, do_read_signals_sync,
}
use asrt.SignalSet.Course.{Move, adds, waits, event, step, held, IsSound, waits-IsAnswered}
use asrt.SignalSet.Cancelled.{wait_all, refusals, cancel_sticks}

abbrev ready : SignalSet ℕ
ready = record (new_set ℕ true) { reactor_handle = some 3; is_native_nonblocking = true }

-- The second wait reads at once, and the third one waits.
abbrev three_waits : List (Move ℕ)
three_waits =
    waits 10 (err try_again)
    ∷ event (of_mask 1) (ok (128, 2))
    ∷ event (of_mask 1) (err try_again)
    ∷ waits 20 (ok (128, 15))
    ∷ adds (ok tt) (ok tt)
    ∷ waits 30 (err try_again)
    ∷ []

waits-IsAnswered_example : IsAnswered held IsSound (course step three_waits ready)
unfolding eq_events
waits-IsAnswered_example =
    waits-IsAnswered three_waits ready refl refl refl (tt, (refl, (refl, (tt, (tt, (tt, tt))))))

abbrev waiting : SignalSet ℕ
waiting = record ready { is_wait_ongoing = true; wait_completion_handler = some 7 }

abbrev two_waits : List (ℕ × Read)
two_waits = (8, ok (128, 2)) ∷ (9, err try_again) ∷ []

cancel_sticks_example :
    let s' = record waiting { wait_completion_handler = none } in
    (cancel (ok tt) waiting
      ≡ some (s', removes_monitored_event (some 3) ∷ enqueues 7 (err operation_cancelled) ∷ []))
    × (wait_all two_waits s' ≡ some (refusals two_waits, s'))
    × (cancel (ok tt) s' ≡ none)
    × (on_signal_event (of_mask 1) (ok (128, 2)) s' ≡ none)
unfolding is_busy_read do_read_signals_sync
cancel_sticks_example =
    cancel_sticks 7 waiting two_waits (of_mask 1) (ok (128, 2)) refl refl refl refl refl
