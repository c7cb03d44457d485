-- ===== src/Executor/Timed/Tests.antt =====
-- Timed jobs of an executor, and the services of three executors.
use asrt.Base.{ℕ, ◌≡◌, ◌↔◌, true, false, none, some, List, [], ◌∷◌}
use asrt.ErrorCode.{ok, err, timer_not_exist}
use asrt.Executor.Timed.{Timed, immediate}
use asrt.Executor.Timed.Count.{Move, posts_periodic, posts_deferred, cancels, fires}
use asrt.Executor.Timed.Services.{use_service, use_all, no_services, first_alone_served}

abbrev new_timed : Timed
new_timed = record {
  executor = record {
    operation_queue = none ∷ [];
    job_count = 0;
    stop_requested = false;
    has_reactor = true;
    reactor_needs_interrupt = false;
    single_thread = true;
    cv_wait_count = 0;
  };
  periodic_job_ids = [];
}

abbrev four_jobs : List Move
four_jobs =
    posts_deferred (some 5) 100 0 (ok 1) (ok tt)
    ∷ posts_periodic immediate true 6 50 0 (ok 2) (ok tt)
    ∷ posts_deferred (some 7) 10 0 (ok 3) (ok tt)
    ∷ fires (some 7) 3 (ok tt)
    ∷ cancels 3 (ok tt)
    ∷ cancels 1 (err timer_not_exist)
    ∷ cancels 2 (ok tt)
    ∷ []

abbrev second : ℕ
second = 4

first_alone_served_example :
    ((use_service second (use_all (3 ∷ 4 ∷ 3 ∷ []) no_services)).0 ≡ true) ↔ (second ≡ 3)
first_alone_served_example = first_alone_served 3 (4 ∷ 3 ∷ []) second
