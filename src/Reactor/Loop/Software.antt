-- ===== src/Reactor/Loop/Software.antt =====
-- Software events in the loop.
use asrt.Base.{
  ℕ, ◌≤◌, ◌<◌, ◌≡◌, ◌≢◌, refl, sym, inl, inr, Bool, true, false, some, List, [], ◌∷◌, ◌++◌, arith,
  ◌==◌, if◌then◌else◌, length, get_elem?, set, length-append, All, length-set, get_elem?-set_self,
  get_elem?-set_ne, get_elem?-of_lt, lt_of_get_elem?, Bool-cases, ◌∙◌, ◌||◌, subst,
}
use native.Mathlib.Decide.{ℕ_discrete}
use asrt.Reactor.Entry.{Entry, Result, ok}
use asrt.Reactor.Loop.{
  Reactor, Turn, turn, EpollEvent, software_event, LoopEffect, epoll_wait, software_handler,
  post_software_event, post_software_events, handle_software_events, handle_events,
}

-- No epoll_wait was called.
abbrev pub NoWait : List LoopEffect → Type 0
NoWait effects = All (λ e. e ≢ epoll_wait) effects

pub NoWait-append : (xs ys : List LoopEffect) → NoWait xs → NoWait ys → NoWait (xs ++ ys)
NoWait-append [] ys h k = k
NoWait-append (x ∷ xs) ys h k = (h.0, NoWait-append xs ys h.1 k)

abbrev pub has_tag : ℕ → List ℕ → Bool
has_tag tag [] = false
has_tag tag (x ∷ xs) = (x == tag) || has_tag tag xs

-- Every tag is below `n`.
abbrev pub InRange : List ℕ → ℕ → Type 0
InRange tags n = All (λ tag. tag < n) tags

module _ {H : Type 0} where
  -- Entry `tag` is registered.
  abbrev pub IsLive : ℕ → List (Entry H) → Type 0
  IsLive tag es = (e : Entry H) × (get_elem? es tag ≡ some e) × (e.valid ≡ true)

  post-length :
      (tag : ℕ) (t : Turn H) (e : Entry H)
      → length (post_software_event tag t e).reactor.operations ≡ length t.reactor.operations
  unfolding post_software_event
  post-length tag t e =
      ground (arith, length-set t.reactor.operations tag (record e { handler_posted = true }))

  post-triggered :
      (tag : ℕ) (t : Turn H) (e : Entry H)
      → (post_software_event tag t e).reactor.triggered_software_events
        ≡ t.reactor.triggered_software_events
  unfolding post_software_event
  post-triggered tag t e = ground arith

  post-NoWait :
      (tag : ℕ) (t : Turn H) (e : Entry H)
      → NoWait t.effects
      → NoWait (post_software_event tag t e).effects
  unfolding post_software_event
  post-NoWait tag t e h = elim (Bool-cases e.valid) [
    | inl v ↦ elim (Bool-cases e.is_software_event_oneshot) [
      | inl o ↦ rw (v, o) h
      | inr o ↦ rw (v, o) (NoWait-append t.effects _ h ((λ z. cc), tt))
    ]
    | inr v ↦ rw v h
  ]

  post-pushed :
      (tag : ℕ) (t : Turn H) (e : Entry H)
      → length t.pushed ≤ length (post_software_event tag t e).pushed
  unfolding post_software_event
  post-pushed tag t e = ground (arith, length-append t.pushed (software_handler tag ∷ []))

  post-pushed_live :
      (tag : ℕ) (t : Turn H) (e : Entry H)
      → e.valid ≡ true
      → 0 < length (post_software_event tag t e).pushed
  unfolding post_software_event
  post-pushed_live tag t e v = ground (arith, length-append t.pushed (software_handler tag ∷ []))

  abbrev posted : Entry H → Entry H
  posted e = record e { handler_posted = true }

  post-operations :
      (tag : ℕ) (t : Turn H) (e : Entry H)
      → (post_software_event tag t e).reactor.operations
        ≡ (if e.valid then set t.reactor.operations tag (posted e) else t.reactor.operations)
  unfolding post_software_event
  post-operations tag t e = ground arith

  set-IsLive :
      (live tag : ℕ) (es : List (Entry H)) (e : Entry H)
      → e.valid ≡ true
      → get_elem? es tag ≡ some e
      → IsLive live es
      → IsLive live (set es tag (posted e))
  set-IsLive live tag es e v at (x, there, w) = elim (ℕ_discrete tag live) [
    | yes same ↦ (
      posted e,
      rw (← same) (get_elem?-set_self es tag (posted e) (lt_of_get_elem? es tag at)),
      v,
    )
    | no other ↦ (x, get_elem?-set_ne es tag live (posted e) other ∙ there, w)
  ]

  post-IsLive :
      (live tag : ℕ) (t : Turn H) (e : Entry H)
      → get_elem? t.reactor.operations tag ≡ some e
      → IsLive live t.reactor.operations
      → IsLive live (post_software_event tag t e).reactor.operations
  post-IsLive live tag t e at l = rw (post-operations tag t e) (elim (Bool-cases e.valid) [
    | inl valid ↦
        subst
          (λ b.
            IsLive live
              (if b then set t.reactor.operations tag (posted e) else t.reactor.operations))
          (sym valid) (set-IsLive live tag t.reactor.operations e valid at l)
    | inr gone ↦
        subst
          (λ b.
            IsLive live
              (if b then set t.reactor.operations tag (posted e) else t.reactor.operations))
          (sym gone) l
  ])

  -- What the loop over the triggered tags leaves.
  record Posted (live : ℕ) (tags : List ℕ) (t t' : Turn H) : Type 0 where
    same_length : length t'.reactor.operations ≡ length t.reactor.operations
    same_triggered : t'.reactor.triggered_software_events ≡ t.reactor.triggered_software_events
    no_wait : NoWait t'.effects
    still_live : IsLive live t'.reactor.operations
    pushed_more : length t.pushed ≤ length t'.pushed
    pushed_live : has_tag live tags ≡ true → 0 < length t'.pushed

  live_entry :
      (live tag : ℕ) (es : List (Entry H)) (e : Entry H)
      → IsLive live es
      → get_elem? es tag ≡ some e
      → (tag == live) ≡ true
      → e.valid ≡ true
  live_entry live tag es e (x, there, v) at same =
      let z : tag ≡ live = ground arith in
      let both : some x ≡ some e = sym there ∙ rw (← z) at in let y : x ≡ e = cc in rw (← y) v

  post_software_events-Posted :
      (live : ℕ) (tags : List ℕ) (t : Turn H)
      → InRange tags (length t.reactor.operations)
      → NoWait t.effects
      → IsLive live t.reactor.operations
      → (t' : Turn H) × (post_software_events tags t ≡ some t') × Posted live tags t t'
  unfolding post_software_events
  post_software_events-Posted live [] t r w l = (
    t,
    refl,
    record {
      same_length = refl;
      same_triggered = refl;
      no_wait = w;
      still_live = l;
      pushed_more = omega arith;
      pushed_live = λ z. cc;
    },
  )
  post_software_events-Posted live (tag ∷ tags) t r w l =
      let (e, at) = get_elem?-of_lt t.reactor.operations tag r.0 in
      let next = post_software_event tag t e in
      let (t', eq, p) =
        post_software_events-Posted live tags next (rw (post-length tag t e) r.1)
          (post-NoWait tag t e w) (post-IsLive live tag t e at l) in
      (
        t',
        rw at eq,
        record {
          same_length = p.same_length ∙ post-length tag t e;
          same_triggered = p.same_triggered ∙ post-triggered tag t e;
          no_wait = p.no_wait;
          still_live = p.still_live;
          pushed_more = omega (arith, p.pushed_more, post-pushed tag t e);
          pushed_live = λ h. elim (Bool-cases (tag == live)) [
            | inl same ↦ omega (
              arith,
              p.pushed_more,
              post-pushed_live tag t e (live_entry live tag t.reactor.operations e l at same),
            )
            | inr other ↦ p.pushed_live (rw other at h)
          ];
        },
      )

  -- A triggered tag that is registered, in a table that holds every triggered tag.
  abbrev pub IsPending : ℕ → Reactor H → Type 0
  IsPending live r =
      InRange r.triggered_software_events (length r.operations)
      × (has_tag live r.triggered_software_events ≡ true)
      × IsLive live r.operations

  pub handle_events-IsPending :
      (live : ℕ) (answer : Result (List EpollEvent)) (r : Reactor H)
      → IsPending live r
      → (t : Turn H) × (handle_events answer r ≡ some (ok software_event, t))
        × NoWait t.effects
        × IsPending live t.reactor
  unfolding handle_events handle_software_events
  handle_events-IsPending live answer r (range, tagged, l) =
      let (t, eq, p) =
        post_software_events-Posted live r.triggered_software_events (turn r) range tt l in
      (
        t,
        ground (arith, p.pushed_live tagged),
        p.no_wait,
        (rw (p.same_triggered, p.same_length) range, rw p.same_triggered tagged, p.still_live),
      )
