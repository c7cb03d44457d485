-- ===== src/WaitableTimer/Tests.antt =====
-- A recurring timer that is waited for twice.
use asrt.Base.{ℕ, ◌≡◌, refl, List, [], ◌∷◌, All}
use asrt.ErrorCode.{ok, err, capacity_exceeded}
use asrt.WaitableTimer.{recurring, new_timer, wait_async}
use asrt.WaitableTimer.Once.{
  Move, waits, sets_after, expires, course, IsRefused, IsHandler, waits_once,
}

abbrev again : List (Move ℕ)
again = expires ∷ sets_after 5 100 ∷ waits 2 120 (ok tt) ∷ expires ∷ []

waits_once_example :
    let (result, t', calls) = wait_async recurring 1 100 (err capacity_exceeded) (new_timer ℕ 10) in
    let (results, more) = course recurring again t' in
    (result ≡ err capacity_exceeded) × All IsRefused results × All (IsHandler 1) more
waits_once_example = waits_once recurring 1 100 (err capacity_exceeded) again (new_timer ℕ 10) refl
