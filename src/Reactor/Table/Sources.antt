-- ===== src/Reactor/Table/Sources.antt =====
-- Registration: which entry it changes, and that no two registered entries share a descriptor.
use asrt.Base.{
  ℕ, zero, suc, ◌-◌, ◌<◌, ◌≡◌, ◌≢◌, refl, inl, inr, true, false, Option, none, some, List, [], ◌∷◌,
  arith, get_elem?, set, length-set, get_elem?-set_self, get_elem?-set_ne, sym, ap,
}
use asrt.Base.Int.{eqb}
use asrt.ErrorCode.{ErrorCode, api_error}
use asrt.Reactor.Events.{
  Events, oneshot_software_event, persistent_software_event as persistent_event,
}
use asrt.Reactor.Entry.{
  Entry, NativeHandle, invalid_native_handle, Effect, Result, ok, err, EventRegistrationType,
  one_shot_software_event, persistent_software_event, register_entry,
}
use asrt.Reactor.Table.{
  Table, find_free_operation_slot, register_impl, store_at, register_one_shot_software_event,
  register_persistent_software_event,
}
use asrt.Reactor.Table.Spec.{has_source, first_free, found, IsTable, IsMarker}
use asrt.Reactor.Table.Search.{find_free_operation_slot-found}
use asrt.Reactor.Table.Distinct.{
  eqb_refl, Result-cases, IsDistinct, IsUnusedFrom-set, IsDistinct-set, first_free-free,
}

module _ {H : Type 0} where
  -- What a registration with result `r` makes of table `t`.
  pub record Registered (io_source : NativeHandle) (h : H) (t : Table H) (r : Result ℕ)
      (t' : Table H) : Type 0 where
    pub well_formed : IsTable t'
    pub distinct : IsDistinct t.operations → IsDistinct t'.operations
    pub on_success :
        (p : ℕ)
        → r ≡ ok p
        → (e e' : Entry H) × (get_elem? t.operations p ≡ some e)
          × (e.valid ≡ false)
          × (e.handler_posted ≡ false)
          × (get_elem? t'.operations p ≡ some e')
          × (e'.valid ≡ true)
          × (e'.io_source ≡ io_source)
          × (e'.handler ≡ some h)
          × ((q : ℕ) → q ≢ p → get_elem? t'.operations q ≡ get_elem? t.operations q)
    pub on_error : (error : ErrorCode) → r ≡ err error → t'.operations ≡ t.operations

  register_entry-stored :
      (how : EventRegistrationType) (io : NativeHandle) (events : Events) (h : H)
      (answer : Option ErrorCode) (e : Entry H)
      → (register_entry how io events h answer e).0 ≡ ok tt
      → let e' = (register_entry how io events h answer e).1 in
        (e'.valid ≡ true) × (e'.io_source ≡ io) × (e'.handler ≡ some h)
  unfolding register_entry
  register_entry-stored how io events h answer e k = ground arith

  -- The table after a search that failed.
  refused :
      (io : NativeHandle) (h : H) (t : Table H) (error : ErrorCode) (m : ℕ)
      → IsTable t
      → IsMarker t.operations m io
      → Registered io h t (err error) (record t { used_operations_end = m })
  refused io h t error m v k = record {
    well_formed = record { has_entry = v.has_entry; fits = k.0; unused = k.1 };
    distinct = λ d. d;
    on_success = λ p z. cc;
    on_error = λ other z. refl;
  }

  accepted :
      (io : NativeHandle) (h : H) (t : Table H) (e e' : Entry H) (p m : ℕ)
      → IsTable t
      → IsMarker t.operations m io
      → p < m
      → has_source io t.operations ≡ false
      → (get_elem? t.operations p ≡ some e) × (e.valid ≡ false) × (e.handler_posted ≡ false)
      → (e'.valid ≡ true) × (e'.io_source ≡ io) × (e'.handler ≡ some h)
      → Registered io h t
          (ok p)
          (record { operations = set t.operations p e'; used_operations_end = m })
  accepted io h t e e' p m v k below fresh old new = record {
    well_formed = record {
      has_entry = omega (arith, length-set t.operations p e', v.has_entry);
      fits = omega (arith, length-set t.operations p e', k.0);
      unused = IsUnusedFrom-set m p t.operations e' below k.1;
    };
    distinct = IsDistinct-set io p t.operations e' new.1 fresh;
    on_success = λ q z.
        let same : p ≡ q = ground arith in
        rw (← same) (
          e,
          e',
          old.0,
          old.1,
          old.2,
          get_elem?-set_self t.operations p e' (omega (arith, k.0)),
          new.0,
          new.1,
          new.2,
          λ j ne. get_elem?-set_ne t.operations p j e' (λ z. ne (sym z)),
        );
    on_error = λ other z. cc;
  }

  found-ok :
      (io : NativeHandle) (es : List (Entry H)) (p : ℕ)
      → found io es ≡ ok p
      → (has_source io es ≡ false) × (first_free 0 es ≡ some p)
  found-ok io es p h = ground arith

  register_impl-error :
      (how : EventRegistrationType) (io : NativeHandle) (events : Events) (h : H)
      (answer : Option ErrorCode) (t : Table H) (error : ErrorCode) (m : ℕ)
      → find_free_operation_slot io t ≡ some (err error, m)
      → register_impl how io events h answer t
        ≡ some (err error, record t { used_operations_end = m }, [])
  unfolding register_impl
  register_impl-error how io events h answer t error m e = ground arith

  register_impl-slot :
      (how : EventRegistrationType) (io : NativeHandle) (events : Events) (h : H)
      (answer : Option ErrorCode) (t : Table H) (p m : ℕ) (e : Entry H)
      → find_free_operation_slot io t ≡ some (ok p, m)
      → get_elem? t.operations p ≡ some e
      → register_impl how io events h answer t
        ≡ some (store_at p m t (register_entry how io events h answer e))
  unfolding register_impl
  register_impl-slot how io events h answer t p m e k g = ground arith

  store_at-Registered :
      (how : EventRegistrationType) (io : NativeHandle) (events : Events) (h : H)
      (answer : Option ErrorCode) (t : Table H) (p m : ℕ) (e : Entry H)
      → IsTable t
      → IsMarker t.operations m io
      → found io t.operations ≡ ok p
      → (get_elem? t.operations p ≡ some e) × (e.valid ≡ false) × (e.handler_posted ≡ false)
      → let s = store_at p m t (register_entry how io events h answer e) in
        Registered io h t s.0 s.1
  unfolding store_at
  store_at-Registered how io events h answer t p m e v k f old =
      elim (Result-cases (register_entry how io events h answer e).0) [
        | inl (_, good) ↦
            rw (good, store_at)
              (accepted io h t e _ p m v k (k.2 p f) (found-ok io t.operations p f).0 old
                (register_entry-stored how io events h answer e good))
        | inr (error, bad) ↦ rw (bad, store_at) (refused io h t error m v k)
      ]

  -- In a well-formed table a registration always ends with a result. If it succeeds with tag p, the entry at p was neither
  -- registered nor posted, is now registered for the descriptor with the handler, and every other
  -- entry is as before; if it fails, all entries are as before. The table stays well formed, and no
  -- two registered entries share a descriptor if none did.
  pub register_impl-Registered :
      (how : EventRegistrationType) (io_source : NativeHandle) (events : Events) (h : H)
      (answer : Option ErrorCode) (t : Table H)
      → IsTable t
      → (r : Result ℕ) × (t' : Table H) × (effects : List Effect) × (register_impl how io_source
            events h answer t
          ≡ some (r, t', effects))
        × Registered io_source h t r t'
  register_impl-Registered how io events h answer t v =
      let (m, search, k) = find_free_operation_slot-found io t v in
      elim (Result-cases (found io t.operations)) [
        | inl (p, f) ↦
            let free = (first_free-free 0 t.operations p (found-ok io t.operations p f).1).1 in
            let e = free.0 in
            let z : p - 0 ≡ p = omega arith in
            let at : get_elem? t.operations p ≡ some e = rw z at free.1 in
            let s = store_at p m t (register_entry how io events h answer e) in
            (
              s.0,
              s.1,
              s.2,
              register_impl-slot how io events h answer t p m e (rw f at search) at,
              store_at-Registered how io events h answer t p m e v k f (at, free.2, free.3),
            )
        | inr (error, f) ↦ (
          err error,
          record t { used_operations_end = m },
          [],
          register_impl-error how io events h answer t error m (rw f at search),
          refused io h t error m v k,
        )
      ]

  has_source-of_entry :
      (io : NativeHandle) (es : List (Entry H)) (p : ℕ) (e : Entry H)
      → get_elem? es p ≡ some e
      → e.valid ≡ true
      → e.io_source ≡ io
      → has_source io es ≡ true
  has_source-of_entry io [] p e g v q = cc
  has_source-of_entry io (x ∷ es) zero e g v q = ground (arith, ap eqb q, eqb_refl io)
  has_source-of_entry io (x ∷ es) (suc p) e g v q =
      ground (arith, has_source-of_entry io es p e g v q)

  register_impl-duplicate :
      (how : EventRegistrationType) (io : NativeHandle) (events : Events) (h : H)
      (answer : Option ErrorCode) (t : Table H)
      → IsTable t
      → has_source io t.operations ≡ true
      → (m : ℕ) × (register_impl how io events h answer t
          ≡ some (err api_error, record t { used_operations_end = m }, []))
  register_impl-duplicate how io events h answer t v dup =
      let (m, search, _) = find_free_operation_slot-found io t v in
      (m, register_impl-error how io events h answer t api_error m (rw dup at search))

  -- Once a persistent software event has been registered in a well-formed table, every further
  -- registration of a software event in the table so reached, one-shot or persistent, is refused
  -- with the API error and changes no entry: all software events are registered under the invalid
  -- handle, which the search takes for one descriptor.
  pub second_software_event_refused :
      (first second : H) (t t' : Table H) (p : ℕ) (effects : List Effect)
      → IsTable t
      → register_persistent_software_event first t ≡ some (ok p, t', effects)
      → ((m : ℕ) × (register_one_shot_software_event second t'
            ≡ some (err api_error, record t' { used_operations_end = m }, [])))
        × ((m : ℕ) × (register_persistent_software_event second t'
              ≡ some (err api_error, record t' { used_operations_end = m }, [])))
  unfolding register_persistent_software_event register_one_shot_software_event
  second_software_event_refused first second t t' p effects v h =
      let (r, t0, effects0, eq, reg) =
        register_impl-Registered persistent_software_event invalid_native_handle persistent_event
          first none t v in
      let same : t0 ≡ t' = cc in
      let succeeded : r ≡ ok p = cc in
      let new = reg.on_success p succeeded in
      let there : has_source invalid_native_handle t'.operations ≡ true =
        rw same at
          (has_source-of_entry invalid_native_handle t0.operations p new.1 new.5 new.6 new.7) in
      let sound : IsTable t' = rw same at reg.well_formed in
      (
        register_impl-duplicate one_shot_software_event invalid_native_handle oneshot_software_event
            second none t' sound there,
        register_impl-duplicate persistent_software_event invalid_native_handle persistent_event
            second none t' sound there,
      )
