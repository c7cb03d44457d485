-- ===== src/Timer/Expiry/OneShot.antt =====
-- The expiry of one-shot timers whose handlers leave the queue alone.
use asrt.Base.{
  ◌>>=◌, ℕ, zero, suc, ◌+◌, ◌*◌, ◌≤◌, ◌<◌, ◌≡◌, ◌≢◌, refl, true, false, Option, some, List, [], ◌∷◌,
  arith, ◌==◌, leb, length, set, length-set, get_elem?, get_elem?-set_self, get_elem?-set_ne,
  lt_of_get_elem?, Bool-cases, inl, inr, ◌⊎◌, ap, sym, ◌∙◌,
}
use asrt.Timer.Queue.{
  TimerEntry, QueuedTimer, TimerEffect, set_time, job_arrival, TimerQueue, move_back_to,
}
use asrt.Timer.Schedule.{remove_timer_from_queue}
use asrt.Timer.Schedule.Heap.{IsHeap, count_tag, MakesHeap, count-move_back_to}
use asrt.Timer.Schedule.Removal.{find_tag-of_count, length-removed, without, removed}
use asrt.Timer.Expiry.{after_handler, handle_one_expiry, expire_loop, handle_expiry}

bind_some :
    {A B : Type 0} (o : Option A) (f : A → Option B) {a : A} {r : Option B}
    → o ≡ some a
    → f a ≡ r
    → (o >>= f) ≡ r
bind_some o f h k = rw h k

some_injective : {A : Type 0} (a b : A) → some a ≡ some b → a ≡ b
some_injective a b h = cc

not_nil : (x : QueuedTimer) (xs : List QueuedTimer) → ¬ ([] ≡ x ∷ xs)
not_nil x xs h = cc

same_front :
    (zs : List QueuedTimer) (x : QueuedTimer) (xs : List QueuedTimer) (y : QueuedTimer)
    (ys : List QueuedTimer)
    → zs ≡ x ∷ xs
    → zs ≡ y ∷ ys
    → x.tag ≡ y.tag
same_front zs x xs y ys h k = cc

List-cases :
    (xs : List QueuedTimer)
    → (xs ≡ []) ⊎ ((x : QueuedTimer) × (rest : List QueuedTimer) × (xs ≡ x ∷ rest))
List-cases [] = inl refl
List-cases (x ∷ xs) = inr (x, xs, refl)

-- What `HandleExpiry` asks for: the timerfd for the front timer, if there is one.
abbrev pub rearmed : List QueuedTimer → List TimerEffect
rearmed [] = []
rearmed (x ∷ xs) = set_time x.expiry ∷ job_arrival ∷ []

rearmed_lem :
    (xs : List QueuedTimer)
    → let effects : List TimerEffect = elim xs [
      | [] ↦ []
      | front ∷ rest ↦ set_time front.expiry ∷ job_arrival ∷ []
    ] in
      effects ≡ rearmed xs
rearmed_lem [] = refl
rearmed_lem (x ∷ xs) = refl

module _ (make_heap : List QueuedTimer → List QueuedTimer) {H : Type 0} where
  -- A handler that leaves the queue alone.
  abbrev pub idle : H → ℕ → TimerQueue H → TimerQueue H
  idle h tag q = q

  after_handler-one_shot :
      (prev_expiry tag : ℕ) (q : TimerQueue H) (e : TimerEntry H)
      → q.release_handler_memory ≡ false
      → e.interval ≡ 0
      → after_handler make_heap prev_expiry tag q e
        ≡ some
            (remove_timer_from_queue make_heap tag
              (record q { timers = set q.timers tag (record e { in_progress = false }) })).1
  unfolding after_handler
  after_handler-one_shot prev tag q e quiet once =
      let test : (e.interval == 0) ≡ true = ground arith in simp (quiet, test) refl

  one_expiry :
      (prev_expiry tag : ℕ) (q : TimerQueue H) (e : TimerEntry H) (h : H)
      → get_elem? q.timers tag ≡ some e
      → e.handler ≡ some h
      → e.interval ≡ 0
      → q.release_handler_memory ≡ false
      → let e1 = record e { in_progress = true } in
        handle_one_expiry make_heap idle prev_expiry tag q
        ≡ some
            (remove_timer_from_queue make_heap tag (record q {
              timers = set (set q.timers tag e1) tag (record e1 { in_progress = false });
            })).1
  unfolding handle_one_expiry
  one_expiry prev tag q e h there hh once quiet =
      let e1 : TimerEntry H = record e { in_progress = true } in
      let again = get_elem?-set_self q.timers tag e1 (lt_of_get_elem? q.timers tag there) in
      bind_some _ _ there (
        bind_some _ _ hh (
          bind_some _ _ again (
            after_handler-one_shot prev tag (record q { timers = set q.timers tag e1 }) e1 quiet
              once)))

  -- The timer is one-shot and has a handler.
  abbrev pub IsOneShot : List (TimerEntry H) → ℕ → Type 0
  IsOneShot timers tag =
      (e : TimerEntry H) × (h : H) × (get_elem? timers tag ≡ some e)
      × (e.handler ≡ some h)
      × (e.interval ≡ 0)

  -- Every queued timer is one, and no handler's memory is to be released.
  pub record IsIdle (q : TimerQueue H) : Type 0 where
    pub one_shot : (tag : ℕ) → count_tag tag q.queued_timers ≢ 0 → IsOneShot q.timers tag
    pub quiet : q.release_handler_memory ≡ false

  -- The timer has an entry, whose expiry none of the first `n` readings of the clock reaches.
  abbrev pub IsUndue : (ℕ → ℕ) → ℕ → List (TimerEntry H) → ℕ → Type 0
  IsUndue clock n timers tag =
      (e : TimerEntry H) × (get_elem? timers tag ≡ some e) × ((i : ℕ) → i < n → clock i < e.expiry)

  IsUndue-set :
      (clock : ℕ → ℕ) (n : ℕ) (timers : List (TimerEntry H)) (tag other : ℕ) (e : TimerEntry H)
      → tag ≢ other
      → IsUndue clock n timers other
      → IsUndue clock n (set timers tag e) other
  IsUndue-set clock n timers tag other e ne (e', there, late) =
      (e', get_elem?-set_ne timers tag other e ne ∙ there, late)

  -- A timer with a reading of the clock that reaches its expiry is none of those.
  undue_differs :
      (clock : ℕ → ℕ) (n i : ℕ) (timers : List (TimerEntry H)) (tag other : ℕ) (e : TimerEntry H)
      → get_elem? timers tag ≡ some e
      → e.expiry ≤ clock i
      → i < n
      → IsUndue clock n timers other
      → tag ≢ other
  undue_differs clock n i timers tag other e there due early (e', there', late) same =
      let equal : e ≡ e' = some_injective e e' (sym there ∙ ap (get_elem? timers) same ∙ there') in
      absurd (omega (arith, due, late i early, ap (λ (x : TimerEntry H). x.expiry) equal))

  IsOneShot-set :
      (timers : List (TimerEntry H)) (tag other : ℕ) (e : TimerEntry H) (h : H)
      → tag < length timers
      → e.handler ≡ some h
      → e.interval ≡ 0
      → IsOneShot timers other
      → IsOneShot (set timers tag e) other
  IsOneShot-set timers tag other e h inside hh once v = elim (Bool-cases (tag == other)) [
    | inl same ↦
        let eq : tag ≡ other = ground arith in
        (e, h, rw (← eq) (get_elem?-set_self timers tag e inside), hh, once)
    | inr differs ↦
        let ne : tag ≢ other = ground arith in
        (v.0, v.1, get_elem?-set_ne timers tag other e ne ∙ v.2, v.3, v.4)
  ]

  -- One expiry of the front timer leaves one timer less and keeps the rest.
  front_expiry :
      (prev_expiry : ℕ) (q : TimerQueue H) (x : QueuedTimer) (xs : List QueuedTimer)
      → MakesHeap make_heap
      → q.queued_timers ≡ x ∷ xs
      → IsIdle q
      → (q' : TimerQueue H) × (handle_one_expiry make_heap idle prev_expiry x.tag q ≡ some q')
        × IsIdle q'
        × IsHeap q'.queued_timers
        × (length q'.queued_timers ≡ length xs)
        × ((tag : ℕ) → count_tag tag q'.queued_timers ≤ count_tag tag q.queued_timers)
        × ((tag : ℕ) → x.tag ≢ tag → count_tag tag q'.queued_timers ≡ count_tag tag q.queued_timers)
        × ((clock : ℕ → ℕ) (n tag : ℕ)
            → x.tag ≢ tag
            → IsUndue clock n q.timers tag
            → IsUndue clock n q'.timers tag)
  unfolding without
  front_expiry prev q x xs mh front v =
      let here : count_tag x.tag q.queued_timers ≢ 0 = rw front (ground arith) in
      let (e, h, there, hh, once) = v.one_shot x.tag here in
      let inside = lt_of_get_elem? q.timers x.tag there in
      let e1 : TimerEntry H = record e { in_progress = true } in
      let e2 : TimerEntry H = record e { in_progress = false } in
      let timers' = set (set q.timers x.tag e1) x.tag e2 in
      let (i, found) = find_tag-of_count x.tag q.queued_timers here in
      let taken = removed make_heap x.tag i (record q { timers = timers' }) found in
      let q' = without make_heap i (record q { timers = timers' }) in
      let rest = move_back_to i q.queued_timers in
      let fewer : (tag : ℕ) → count_tag tag q'.queued_timers ≤ count_tag tag q.queued_timers =
        λ tag.
          omega
            (arith, mh.same_count rest tag, count-move_back_to x.tag tag q.queued_timers i found) in
      let inside' : x.tag < length (set q.timers x.tag e1) =
        omega (arith, inside, length-set q.timers x.tag e1) in
      (
        q',
        one_expiry prev x.tag q e h there hh once v.quiet ∙ ap (λ r. some r.1) taken,
        record {
          one_shot = λ tag c. IsOneShot-set (set q.timers x.tag e1) x.tag tag e2 h inside' hh once (
              IsOneShot-set q.timers x.tag tag e1 h inside hh once
                (v.one_shot tag (λ z. c (omega (arith, z, fewer tag)))));
          quiet = v.quiet;
        },
        mh.front_earliest rest,
        omega (arith, mh.same_length rest, length-removed i q.queued_timers, ap length front),
        fewer,
        λ tag ne.
            let differs : (x.tag == tag) ≡ false = ground arith in
            ground (
              arith,
              mh.same_count rest tag,
              count-move_back_to x.tag tag q.queued_timers i found,
              differs,
            ),
        λ clock n tag ne late.
            IsUndue-set clock n (set q.timers x.tag e1) x.tag tag e2 ne
              (IsUndue-set clock n q.timers x.tag tag e1 ne late),
      )

  loop_nil :
      (clock : ℕ → ℕ) (fuel i : ℕ) (q : TimerQueue H)
      → q.queued_timers ≡ []
      → expire_loop make_heap idle clock (suc fuel) i q ≡ some q
  unfolding expire_loop
  loop_nil clock fuel i q h =
      rw (h, expire_loop) (ap (λ zs. some (record q { queued_timers = zs })) h)

  loop_stop :
      (clock : ℕ → ℕ) (fuel i : ℕ) (q : TimerQueue H) (x : QueuedTimer) (xs : List QueuedTimer)
      (e : TimerEntry H)
      → q.queued_timers ≡ x ∷ xs
      → get_elem? q.timers x.tag ≡ some e
      → leb e.expiry (clock i) ≡ false
      → expire_loop make_heap idle clock (suc fuel) i q ≡ some q
  unfolding expire_loop
  loop_stop clock fuel i q x xs e front there early =
      rw (front, there, early, expire_loop)
        (ap (λ zs. some (record q { queued_timers = zs })) front)

  loop_go :
      (clock : ℕ → ℕ) (fuel i : ℕ) (q q' : TimerQueue H) (x : QueuedTimer) (xs : List QueuedTimer)
      (e : TimerEntry H)
      → q.queued_timers ≡ x ∷ xs
      → get_elem? q.timers x.tag ≡ some e
      → leb e.expiry (clock i) ≡ true
      → handle_one_expiry make_heap idle (clock (i + 1)) x.tag q ≡ some q'
      → expire_loop make_heap idle clock (suc fuel) i q
        ≡ expire_loop make_heap idle clock fuel (i + 2) q'
  unfolding expire_loop
  loop_go clock fuel i q q' x xs e front there due done =
      rw (front, there, due, done, expire_loop) refl

  -- The queue is a heap, and its front timer, if any, was not yet due at a reading of the clock.
  pub record IsCaughtUp (clock : ℕ → ℕ) (q : TimerQueue H) : Type 0 where
    pub heap : IsHeap q.queued_timers
    pub not_due :
        (x : QueuedTimer) (xs : List QueuedTimer)
        → q.queued_timers ≡ x ∷ xs
        → (e : TimerEntry H) × (i : ℕ) × (get_elem? q.timers x.tag ≡ some e) × (clock i < e.expiry)

  loop_ends :
      (fuel : ℕ) (clock : ℕ → ℕ) (i : ℕ) (q : TimerQueue H)
      → MakesHeap make_heap
      → IsIdle q
      → IsHeap q.queued_timers
      → length q.queued_timers < fuel
      → (q' : TimerQueue H) × (expire_loop make_heap idle clock fuel i q ≡ some q')
        × IsCaughtUp clock q'
        × ((tag : ℕ) → count_tag tag q'.queued_timers ≤ count_tag tag q.queued_timers)
        × ((n tag : ℕ)
            → i + 2 * fuel ≤ n
            → IsUndue clock n q.timers tag
            → count_tag tag q'.queued_timers ≡ count_tag tag q.queued_timers)
  loop_ends zero clock i q mh v heap l = absurd (omega arith)
  loop_ends (suc fuel) clock i q mh v heap l = elim (List-cases q.queued_timers) [
    | inl empty ↦ (
      q,
      loop_nil clock fuel i q empty,
      record { heap = heap; not_due = λ x xs h. absurd (not_nil x xs (sym empty ∙ h)) },
      λ tag. omega arith,
      λ n tag l late. refl,
    )
    | inr (x, xs, front) ↦
        let here : count_tag x.tag q.queued_timers ≢ 0 = rw front (ground arith) in
        let (e, h, there, hh, once) = v.one_shot x.tag here in
        elim (Bool-cases (leb e.expiry (clock i))) [
          | inl due ↦
              let (q', done, v', heap', size, fewer, same, still) =
                front_expiry (clock (i + 1)) q x xs mh front v in
              let (q'', ends, caught, less, kept) =
                loop_ends fuel clock (i + 2) q' mh v' heap'
                  (omega (arith, l, size, ap length front)) in
              (
                q'',
                loop_go clock fuel i q q' x xs e front there due done ∙ ends,
                caught,
                λ tag. omega (arith, fewer tag, less tag),
                λ n tag l late.
                    let ne =
                      undue_differs clock n i q.timers x.tag tag e there (ground arith)
                        (omega arith) late in
                    kept n tag (omega arith) (still clock n tag ne late) ∙ same tag ne,
              )
          | inr early ↦
              let late : clock i < e.expiry = ground arith in
              (
                q,
                loop_stop clock fuel i q x xs e front there early,
                record {
                  heap = heap;
                  not_due = λ y ys k.
                      let same : x.tag ≡ y.tag = same_front q.queued_timers x xs y ys front k in
                      (e, i, rw same at there, late);
                },
                λ tag. omega arith,
                λ n tag l late. refl,
              )
        ]
  ]

  -- With `make_heap` as documented, one-shot timers whose handlers leave the queue alone, a queue that
  -- is a heap, and any clock: one round more than timers are queued is enough fuel for `HandleExpiry`;
  -- it returns with a heap whose front timer was not yet due at a reading of the clock, has added no
  -- timer and still holds, as often as before, every timer whose expiry no reading that it can make reaches,
  -- and arms the timerfd for the front timer, with a job arrival, unless no timer is left.
  pub one_shots_expire :
      (clock : ℕ → ℕ) (fuel : ℕ) (q : TimerQueue H)
      → MakesHeap make_heap
      → IsIdle q
      → IsHeap q.queued_timers
      → length q.queued_timers < fuel
      → (q' : TimerQueue H) × (handle_expiry make_heap idle clock fuel q
          ≡ some (q', rearmed q'.queued_timers))
        × IsCaughtUp clock q'
        × ((tag : ℕ) → count_tag tag q'.queued_timers ≤ count_tag tag q.queued_timers)
        × ((tag : ℕ)
            → IsUndue clock (2 * fuel) q.timers tag
            → count_tag tag q'.queued_timers ≡ count_tag tag q.queued_timers)
  unfolding handle_expiry
  one_shots_expire clock fuel q mh v heap l =
      let (q', ends, caught, fewer, kept) = loop_ends fuel clock 0 q mh v heap l in
      (
        q',
        bind_some _ _ ends (ap (λ effects. some (q', effects)) (rearmed_lem q'.queued_timers)),
        caught,
        fewer,
        λ tag late. kept (2 * fuel) tag (omega arith) late,
      )
