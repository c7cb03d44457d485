-- ===== src/Timer/Queue/Uses.antt =====
-- The users of the timer queue's tags, and what one reservation or recycling does to them.
use asrt.Base.{
  ℕ, ◌+◌, ◌%◌, ◌≤◌, ◌<◌, ◌≡◌, ◌≢◌, refl, true, false, Option, none, some, List, [], ◌∷◌, ◌++◌,
  arith, ◌==◌, ltb, leb, if◌then◌else◌, length, set, ◌⊎◌, length-set, get_elem?, get_elem?-of_lt,
  lt_of_get_elem?, Bool-cases, Option-cases, inl, inr, ap, ◌∙◌,
}
use asrt.Reactor.Entry.{Result, ok, err}
use asrt.Timer.Queue.{
  max_timer_count, TimerEntry, TimerQueue, new_queue, get_next_available_tag, reserve_tag, reserve,
  recycle_timer_tag,
}

-- How often a tag stands in a list.
abbrev pub occurs : ℕ → List ℕ → ℕ
occurs t [] = 0
occurs t (x ∷ xs) = (if x == t then 1 else 0) + occurs t xs

-- A list without the first place of a tag.
abbrev pub drop_tag : ℕ → List ℕ → List ℕ
drop_tag t [] = []
drop_tag t (x ∷ xs) = if x == t then xs else x ∷ drop_tag t xs

occurs-append :
    (t : ℕ) (xs : List ℕ) (y : ℕ)
    → occurs t (xs ++ y ∷ []) ≡ occurs t xs + (if y == t then 1 else 0)
occurs-append t [] y = omega arith
occurs-append t (x ∷ xs) y = omega (arith, occurs-append t xs y)

occurs-drop_tag :
    (t y : ℕ) (xs : List ℕ)
    → occurs y xs ≢ 0
    → occurs t (drop_tag y xs) + (if y == t then 1 else 0) ≡ occurs t xs
occurs-drop_tag t y [] h = absurd (h refl)
occurs-drop_tag t y (x ∷ xs) h = ground (arith, occurs-drop_tag t y xs)

List-cases : (xs : List ℕ) → (xs ≡ []) ⊎ ((x : ℕ) × (rest : List ℕ) × (xs ≡ x ∷ rest))
List-cases [] = inl refl
List-cases (x ∷ xs) = inr (x, xs, refl)

-- What the users of the queue do with tags; a recycled tag is one that is held, as the comment at
-- `RecycleTimerTag` demands.
pub data Use (H : Type 0) : Type 0 where
  reserves : H → Use H
  recycles : ℕ → Use H

-- The queue and the tags that are held.
pub record Users (H : Type 0) : Type 0 where
  pub queue : TimerQueue H
  pub held : List ℕ

abbrev pub granted : Result ℕ → List ℕ → List ℕ
granted (ok tag) held = tag ∷ held
granted (err e) held = held

pub not_some : {A : Type 0} (o : Option A) {a : A} → o ≡ none → ¬ (o ≡ some a)
not_some o h k = cc

module _ {H : Type 0} where
  -- One use; `none` is an access to the storage out of range.
  unfoldable pub use_step : Users H → Use H → Option (Users H)
  use_step u (reserves h) = elim (reserve h u.queue) [
    | none ↦ none
    | some (result, q) ↦ some (record { queue = q; held = granted result u.held })
  ]
  use_step u (recycles tag) =
      if occurs tag u.held == 0
      then some u
      else some (record { queue = recycle_timer_tag tag u.queue; held = drop_tag tag u.held })

  unfoldable pub run_uses : Users H → List (Use H) → Option (Users H)
  run_uses u [] = some u
  run_uses u (m ∷ ms) = elim (use_step u m) [ none ↦ none | some u' ↦ run_uses u' ms ]

  -- The storage has its size; every tag is held or recycled at most once, and only below `tag_end_`.
  pub record IsSound (u : Users H) : Type 0 where
    pub size : length u.queue.timers ≡ max_timer_count
    pub bounded : u.queue.tag_end ≤ max_timer_count
    pub unique :
        (t : ℕ)
        → occurs t u.held + occurs t u.queue.recycle_bin ≤ (if ltb t u.queue.tag_end then 1 else 0)

  abbrev pub no_users : Users H
  no_users = record { queue = new_queue; held = [] }

  pub no_users-IsSound : IsSound no_users
  no_users-IsSound = record { size = refl; bounded = omega arith; unique = λ t. ground arith }

  -- The tag that a reservation gives, and the queue that it leaves.
  pub record Reserved (h : H) (q : TimerQueue H) : Type 0 where
    pub tag : ℕ
    pub left : TimerQueue H
    pub result : reserve h q ≡ some (ok tag, left)
    pub bounded : left.tag_end ≤ max_timer_count
    pub same_size : length left.timers ≡ length q.timers
    pub source :
        ((q.recycle_bin ≡ tag ∷ left.recycle_bin) × (left.tag_end ≡ q.tag_end))
        ⊎ ((q.recycle_bin ≡ [])
            × (left.recycle_bin ≡ [])
            × (tag ≡ q.tag_end)
            × (left.tag_end ≡ q.tag_end + 1))

  next-recycled :
      (q : TimerQueue H) (tag : ℕ) (rest : List ℕ)
      → q.recycle_bin ≡ tag ∷ rest
      → q.tag_end ≤ max_timer_count
      → get_next_available_tag q ≡ (ok tag, record q { recycle_bin = rest })
  unfolding get_next_available_tag
  next-recycled q tag rest bin bounded =
      let room : leb q.tag_end max_timer_count ≡ true = ground arith in rw (room, bin) refl

  next-fresh :
      (q : TimerQueue H)
      → q.recycle_bin ≡ []
      → q.tag_end ≤ max_timer_count
      → get_next_available_tag q ≡ (ok q.tag_end, record q { tag_end = q.tag_end + 1 })
  unfolding get_next_available_tag
  next-fresh q bin bounded =
      let room : leb q.tag_end max_timer_count ≡ true = ground arith in
      let small : (q.tag_end + 1) % 256 ≡ q.tag_end + 1 = omega arith in
      rw (room, bin, small)
        (ap (λ xs. (ok q.tag_end, record q { tag_end = q.tag_end + 1; recycle_bin = xs })) bin)

  reserve-recycled :
      (h : H) (q : TimerQueue H) (tag : ℕ) (rest : List ℕ)
      → q.recycle_bin ≡ tag ∷ rest
      → q.tag_end ≤ max_timer_count
      → tag < length q.timers
      → Reserved h q
  unfolding reserve reserve_tag
  reserve-recycled h q tag rest bin bounded inside =
      let (e, there) = get_elem?-of_lt q.timers tag inside in
      let e' : TimerEntry H = record e { handler = some h; in_progress = false } in
      record {
        tag = tag;
        left = record q { recycle_bin = rest; timers = set q.timers tag e' };
        result = ap (reserve_tag h) (next-recycled q tag rest bin bounded) ∙ rw there refl;
        bounded = bounded;
        same_size = length-set q.timers tag e';
        source = inl (bin, refl);
      }

  reserve-fresh :
      (h : H) (q : TimerQueue H)
      → q.recycle_bin ≡ []
      → q.tag_end < length q.timers
      → length q.timers ≡ max_timer_count
      → Reserved h q
  unfolding reserve reserve_tag
  reserve-fresh h q bin inside size =
      let (e, there) = get_elem?-of_lt q.timers q.tag_end inside in
      let e' : TimerEntry H = record e { handler = some h; in_progress = false } in
      record {
        tag = q.tag_end;
        left = record q { tag_end = q.tag_end + 1; timers = set q.timers q.tag_end e' };
        result = ap (reserve_tag h) (next-fresh q bin (omega arith)) ∙ rw there refl;
        bounded = omega arith;
        same_size = length-set q.timers q.tag_end e';
        source = inr (bin, bin, refl, refl);
      }

  pub reserve-faults :
      (h : H) (q : TimerQueue H)
      → q.recycle_bin ≡ []
      → q.tag_end ≡ max_timer_count
      → length q.timers ≡ max_timer_count
      → reserve h q ≡ none
  unfolding reserve reserve_tag
  reserve-faults h q bin last size =
      ap (reserve_tag h) (next-fresh q bin (omega arith))
      ∙ elim (Option-cases (get_elem? q.timers q.tag_end)) [
        | inl absent ↦ rw absent refl
        | inr (e, there) ↦ absurd (omega (arith, lt_of_get_elem? q.timers q.tag_end there))
      ]

  pub granted_tag-IsSound :
      (h : H) (u : Users H) (r : Reserved h u.queue)
      → IsSound u
      → IsSound (record { queue = r.left; held = r.tag ∷ u.held })
  granted_tag-IsSound h u r v = record {
    size = r.same_size ∙ v.size;
    bounded = r.bounded;
    unique = λ t. elim r.source [
      | inl (bin, same) ↦ ground (arith, v.unique t, ap (occurs t) bin, same)
      | inr (bin, empty, fresh, more) ↦
          ground (arith, v.unique t, ap (occurs t) bin, ap (occurs t) empty, fresh, more)
    ];
  }

  head_below :
      (u : Users H) (tag : ℕ) (rest : List ℕ)
      → IsSound u
      → u.queue.recycle_bin ≡ tag ∷ rest
      → tag < u.queue.tag_end
  head_below u tag rest v bin = ground (arith, v.unique tag, ap (occurs tag) bin)

  below :
      (u : Users H)
      → IsSound u
      → (u.queue.tag_end == max_timer_count) ≡ false
      → u.queue.tag_end < max_timer_count
  below u v more = ground (arith, v.bounded)

  inside :
      (u : Users H) (tag : ℕ) (rest : List ℕ)
      → IsSound u
      → u.queue.recycle_bin ≡ tag ∷ rest
      → tag < length u.queue.timers
  inside u tag rest v bin = omega (arith, head_below u tag rest v bin, v.bounded, v.size)

  -- A sound queue either gives a tag or leaves the storage.
  pub reserve-cases :
      (h : H) (u : Users H)
      → IsSound u
      → ((u.queue.tag_end ≡ max_timer_count)
          × (u.queue.recycle_bin ≡ [])
          × (reserve h u.queue ≡ none))
        ⊎ Reserved h u.queue
  reserve-cases h u v = elim (List-cases u.queue.recycle_bin) [
    | inl empty ↦ elim (Bool-cases (u.queue.tag_end == max_timer_count)) [
      | inl last ↦ inl (ground arith, empty, reserve-faults h u.queue empty (ground arith) v.size)
      | inr more ↦
          inr (reserve-fresh h u.queue empty (omega (arith, below u v more, v.size)) v.size)
    ]
    | inr (tag, rest, bin) ↦
        inr (reserve-recycled h u.queue tag rest bin v.bounded (inside u tag rest v bin))
  ]

  pub recycled-IsSound :
      (tag : ℕ) (u : Users H)
      → occurs tag u.held ≢ 0
      → IsSound u
      → IsSound (record { queue = recycle_timer_tag tag u.queue; held = drop_tag tag u.held })
  unfolding recycle_timer_tag
  recycled-IsSound tag u h v = record {
    size = v.size;
    bounded = v.bounded;
    unique = λ t. omega (
      arith,
      v.unique t,
      occurs-append t u.queue.recycle_bin tag,
      occurs-drop_tag t tag u.held h,
    );
  }
