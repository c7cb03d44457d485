-- ===== src/Reactor/Loop/Starvation.antt =====
-- What a triggered software event does to the loop for as long as it stays registered.
use asrt.Base.{
  ℕ, ◌<◌, ◌≡◌, true, some, List, [], ◌∷◌, ◌++◌, arith, length, get_elem?, ◌⊎◌, subst, Option-cases,
  inl, inr, Bool-cases,
}
use asrt.Reactor.Entry.{Entry, Result, ok}
use asrt.Reactor.Loop.{
  Reactor, Turn, EpollEvent, UnblockReason, software_event, LoopEffect, handle_events,
  trigger_software_event, triggered,
}
use asrt.Reactor.Loop.Software.{
  NoWait, NoWait-append, has_tag, IsLive, InRange, IsPending, handle_events-IsPending,
}
use asrt.Reactor.Events.{has_software_event}
use asrt.Base.{lt_of_get_elem?}

has_tag-append : (tag : ℕ) (xs ys : List ℕ) → has_tag tag xs ≡ true → has_tag tag (xs ++ ys) ≡ true
has_tag-append tag [] ys h = cc
has_tag-append tag (x ∷ xs) ys h = ground (arith, has_tag-append tag xs ys)

InRange-append : (xs : List ℕ) (tag n : ℕ) → InRange xs n → tag < n → InRange (xs ++ tag ∷ []) n
InRange-append [] tag n h k = (k, tt)
InRange-append (x ∷ xs) tag n h k = (h.0, InRange-append xs tag n h.1 k)

module _ {H : Type 0} where
  -- A course of the reactor while entry `live` stays registered: turns of the loop with any answer of
  -- epoll_wait, triggers of any entry, and between them any change of the entries by handlers and
  -- other threads. The list holds the effects of the turns.
  pub data Course (live : ℕ) (r : Reactor H) : Reactor H → List LoopEffect → Type 0 where
    here : Course live r r []
    turns :
        {s : Reactor H} {effects : List LoopEffect}
        → Course live r s effects
        → (answer : Result (List EpollEvent)) (result : Result UnblockReason) (t : Turn H)
        → handle_events answer s ≡ some (result, t)
        → Course live r t.reactor (effects ++ t.effects)
    triggers :
        {s : Reactor H} {effects : List LoopEffect}
        → Course live r s effects
        → (tag : ℕ) (result : Result (Unit {0})) (s' : Reactor H)
        → trigger_software_event tag s ≡ some (result, s')
        → Course live r s' effects
    changes :
        {s : Reactor H} {effects : List LoopEffect}
        → Course live r s effects
        → (es : List (Entry H)) → length es ≡ length s.operations
        → IsLive live es
        → Course live r (record s { operations = es }) effects

  with_tag : ℕ → Reactor H → Reactor H
  with_tag tag s = record s { triggered_software_events = s.triggered_software_events ++ tag ∷ [] }

  triggered_cases :
      (tag : ℕ) (e : Entry H) (s s' : Reactor H) (result : Result (Unit {0}))
      → triggered tag e s ≡ some (result, s')
      → (s ≡ s') ⊎ (with_tag tag s ≡ s')
  unfolding triggered with_tag
  triggered_cases tag e s s' result h = elim (Bool-cases e.valid) [
    | inl v ↦ elim (Bool-cases (has_software_event e.monitored_events)) [
      | inl w ↦ inr (ground arith)
      | inr w ↦ inl (ground arith)
    ]
    | inr v ↦ inl (ground arith)
  ]

  triggered-IsPending :
      (live tag : ℕ) (e : Entry H) (s s' : Reactor H) (result : Result (Unit {0}))
      → IsPending live s
      → tag < length s.operations
      → triggered tag e s ≡ some (result, s')
      → IsPending live s'
  unfolding with_tag
  triggered-IsPending live tag e s s' result p k h = elim (triggered_cases tag e s s' result h) [
    | inl same ↦ rw same at p
    | inr more ↦ subst (IsPending live) more (
      InRange-append s.triggered_software_events tag (length s.operations) p.0 k,
      has_tag-append live s.triggered_software_events (tag ∷ []) p.1,
      p.2,
    )
  ]

  trigger-IsPending :
      (live tag : ℕ) (s s' : Reactor H) (result : Result (Unit {0}))
      → IsPending live s
      → trigger_software_event tag s ≡ some (result, s')
      → IsPending live s'
  unfolding trigger_software_event
  trigger-IsPending live tag s s' result p h = elim (Option-cases (get_elem? s.operations tag)) [
    | inl e ↦ ground arith
    | inr (e, at) ↦
        triggered-IsPending live tag e s s' result p (lt_of_get_elem? s.operations tag at)
          (rw at at h)
  ]

  Course-starves :
      {live : ℕ} {r s : Reactor H} {effects : List LoopEffect}
      → IsPending live r
      → Course live r s effects
      → NoWait effects × IsPending live s
  Course-starves p here = (tt, p)
  Course-starves {live} p (turns {s} {effects} c answer result t eq) =
      let (none_before, pending) = Course-starves p c in
      let (t', eq', none_now, next) = handle_events-IsPending live answer s pending in
      let same : t' ≡ t = ground arith in
      (NoWait-append effects t.effects none_before (rw same at none_now), rw same at next)
  Course-starves {live} p (triggers {s} {effects} c tag result s' eq) =
      let (none_before, pending) = Course-starves p c in
      (none_before, trigger-IsPending live tag s s' result pending eq)
  Course-starves {live} p (changes {s} {effects} c es same l) =
      let (none_before, pending) = Course-starves p c in
      (none_before, (rw same pending.0, pending.1, l))

  -- From a state in which a registered software event has been triggered and all triggered tags are
  -- in range, and for as long as its entry stays registered, no turn of the loop calls epoll_wait:
  -- whatever else is triggered and however the entries change in between, no epoll_wait has been
  -- called and the next turn again reports a software event.
  pub software_event_starves_epoll :
      {live : ℕ} {r s : Reactor H} {effects : List LoopEffect} (answer : Result (List EpollEvent))
      → IsPending live r
      → Course live r s effects
      → NoWait effects
        × ((t : Turn H) × (handle_events answer s ≡ some (ok software_event, t)) × NoWait t.effects)
  software_event_starves_epoll {live} {r} {s} answer p c =
      let (none_before, pending) = Course-starves p c in
      let (t, eq, none_now, _) = handle_events-IsPending live answer s pending in
      (none_before, (t, eq, none_now))
