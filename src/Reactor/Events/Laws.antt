-- ===== src/Reactor/Events/Laws.antt =====
-- The algebra of event sets that the reactor relies on.
use Prim.Native.Nat.{bit_and}
use asrt.Base.{ℕ, ◌^◌, ◌<◌, ◌≡◌, ◌≢◌, Bool, true, false, arith, not, ◌==◌}
use asrt.Base.Bits.{
  and-and-complement, or-and-complement, and-or_right, and-or_disjoint, and-complement_disjoint,
  and-lt, and_absorb,
}
use asrt.Reactor.Events.{
  Events, consume, contains, union, intersection, mask_bits, has_event, set_event,
}

-- The mask is a `std::uint32_t`.
abbrev pub IsWord : Events → Type 0
IsWord e = e.event_mask < 2 ^ mask_bits

-- For 32-bit masks: consuming the events that are reported leaves none of them among the monitored
-- events, and what is left makes up, with what was reported, exactly what was monitored.
pub consume_reported :
    (monitored captured : Events)
    → IsWord monitored
    → IsWord captured
    → let reported = intersection captured monitored in
      (contains (consume monitored reported) reported ≡ false)
      × ((union (consume monitored reported) reported).event_mask ≡ monitored.event_mask)
unfolding consume contains union intersection
consume_reported m c hm hc =
    let x = bit_and c.event_mask m.event_mask in
    let small = and-lt mask_bits c.event_mask m.event_mask hc in
    let joined = or-and-complement mask_bits m.event_mask x hm small in
    (
      rw (and-and-complement mask_bits m.event_mask x hm small),
      rw (and_absorb mask_bits m.event_mask c.event_mask hm hc) at joined,
    )

nonzero-test : (n : ℕ) → n ≢ 0 → not (n == 0) ≡ true
nonzero-test n h = ground arith

-- For 32-bit masks and an event type that is not empty: turning the event type on makes it present
-- and turning it off makes it absent; either way every event type that shares no bit with it is as
-- before.
pub set_event_lem :
    (e : Events) (ev other : ℕ) (enable : Bool)
    → IsWord e
    → ev < 2 ^ mask_bits
    → other < 2 ^ mask_bits
    → ev ≢ 0
    → bit_and ev other ≡ 0
    → (has_event (set_event e ev enable) ev ≡ enable)
      × (has_event (set_event e ev enable) other ≡ has_event e other)
unfolding has_event set_event
set_event_lem e ev other true he hv ho nz d = (
  rw (and-or_right mask_bits e.event_mask ev he hv) (nonzero-test ev nz),
  rw (and-or_disjoint mask_bits e.event_mask ev other he hv ho d),
)
set_event_lem e ev other false he hv ho nz d = (
  rw (and-and-complement mask_bits e.event_mask ev he hv),
  rw (and-complement_disjoint mask_bits e.event_mask ev other he hv ho d),
)
