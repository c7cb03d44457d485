-- ===== src/Timer/Queue/Tags.antt =====
-- Reservation and recycling of timer tags: no tag is held twice, and when a reservation leaves the
-- storage.
use asrt.Base.{
  ℕ, ◌+◌, ◌≤◌, ◌<◌, ◌≡◌, ◌≢◌, ◌↔◌, refl, Option, none, some, List, [], ◌∷◌, arith, ◌==◌, length,
  Bool-cases, Option-cases, inl, inr, subst,
}
use asrt.Reactor.Entry.{ok}
use asrt.Timer.Queue.{TimerQueue, reserve, recycle_timer_tag}
use asrt.Timer.Queue.Uses.{
  occurs, drop_tag, Use, reserves, recycles, Users, not_some, use_step, run_uses, IsSound, no_users,
  no_users-IsSound, reserve-faults, granted_tag-IsSound, reserve-cases, recycled-IsSound,
}

module _ {H : Type 0} where
  landed :
      (o : Option (Users H)) (w u' : Users H) → o ≡ some w → o ≡ some u' → IsSound w → IsSound u'
  landed o w u' h k v = let same : w ≡ u' = cc in subst IsSound same v

  not_both : (o : Option (Users H)) (u' : Users H) → o ≡ none → o ≡ some u' → IsSound u'
  not_both o u' h k = absurd (not_some o h k)

  step-IsSound :
      (u : Users H) (m : Use H) (u' : Users H) → IsSound u → use_step u m ≡ some u' → IsSound u'
  unfolding use_step
  step-IsSound u (recycles tag) u' v e = elim (Bool-cases (occurs tag u.held == 0)) [
    | inl none_held ↦ landed (use_step u (recycles tag)) u u' (rw (none_held, use_step) refl) e v
    | inr one_held ↦
        landed (use_step u (recycles tag))
          (record { queue = recycle_timer_tag tag u.queue; held = drop_tag tag u.held }) u'
          (rw (one_held, use_step) refl) e (recycled-IsSound tag u (ground arith) v)
  ]
  step-IsSound u (reserves h) u' v e = elim (reserve-cases h u v) [
    | inl (last, empty, fault) ↦ not_both (use_step u (reserves h)) u' (rw (fault, use_step) refl) e
    | inr r ↦
        landed (use_step u (reserves h)) (record { queue = r.left; held = r.tag ∷ u.held }) u'
          (rw (r.result, use_step) refl) e (granted_tag-IsSound h u r v)
  ]

  run-IsSound :
      (u : Users H) (ms : List (Use H)) (u' : Users H)
      → IsSound u
      → run_uses u ms ≡ some u'
      → IsSound u'
  unfolding run_uses
  run-IsSound u [] u' v e = landed (some u) u u' refl e v
  run-IsSound u (m ∷ ms) u' v e = elim (Option-cases (use_step u m)) [
    | inl fault ↦ not_both (run_uses u (m ∷ ms)) u' (rw (fault, run_uses) refl) e
    | inr (w, eq) ↦ run-IsSound w ms u' (step-IsSound u m w v eq) (rw (eq, run_uses) at e)
  ]

  -- From a new queue and under every course of reservations and recycling of held tags that does not
  -- leave the storage: no tag is held twice, no held tag waits to be reused, and every held tag is the
  -- index of a timer in the storage.
  pub tags_unique :
      (ms : List (Use H)) (u : Users H)
      → run_uses no_users ms ≡ some u
      → (t : ℕ)
      → (occurs t u.held + occurs t u.queue.recycle_bin ≤ 1)
        × (occurs t u.held ≢ 0 → t < length u.queue.timers)
  tags_unique ms u e t =
      let v = run-IsSound no_users ms u no_users-IsSound e in
      (ground (arith, v.unique t), λ h. ground (arith, v.unique t, v.bounded, v.size))

  -- After every such course, a reservation writes behind the end of the storage exactly if all 254
  -- timers have been given out and none was recycled; otherwise it succeeds.
  pub reserve_iff :
      (ms : List (Use H)) (u : Users H) (h : H)
      → run_uses no_users ms ≡ some u
      → ((reserve h u.queue ≡ none) ↔ ((u.queue.tag_end ≡ 254) × (u.queue.recycle_bin ≡ [])))
        × (((tag : ℕ) × (q : TimerQueue H) × (reserve h u.queue ≡ some (ok tag, q)))
            ↔ ¬ ((u.queue.tag_end ≡ 254) × (u.queue.recycle_bin ≡ [])))
  reserve_iff ms u h e =
      let v = run-IsSound no_users ms u no_users-IsSound e in
      (
        (
          λ fault. elim (reserve-cases h u v) [
            | inl (last, empty, _) ↦ (last, empty)
            | inr r ↦ absurd (not_some (reserve h u.queue) fault r.result)
          ],
          λ (last, empty). reserve-faults h u.queue empty last v.size,
        ),
        (
          λ (tag, q, done) (last, empty).
              not_some (reserve h u.queue) (reserve-faults h u.queue empty last v.size) done,
          λ room. elim (reserve-cases h u v) [
            | inl (last, empty, _) ↦ absurd (room (last, empty))
            | inr r ↦ (r.tag, r.left, r.result)
          ],
        ),
      )
