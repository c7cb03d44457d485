-- ===== src/Reactor/Events.antt =====
-- include/asrt/reactor/types.hpp, class Events: a set of epoll events as a 32-bit mask, beside the
-- kind of software event that the value stands for.
pub mod Laws
use Prim.Native.Nat.{bit_and, bit_or}
use asrt.Base.{ℕ, Bool, true, false, not, ◌||◌, ◌==◌, if◌then◌else◌}
use asrt.Base.Bits.{complement}

pub data SoftwareEventType : Type 0 where
  null_sw_event oneshot_sw_event persistent_sw_event : SoftwareEventType

pub record Events : Type 0 where
  pub software_event : SoftwareEventType
  pub event_mask : ℕ

-- The values of sys/epoll.h.
abbrev pub epollin : ℕ
epollin = 0x1

abbrev pub epollpri : ℕ
epollpri = 0x2

abbrev pub epollout : ℕ
epollout = 0x4

abbrev pub epollet : ℕ
epollet = 0x80000000

-- The width of `std::uint32_t`.
abbrev pub mask_bits : ℕ
mask_bits = 32

-- The constructors: default, from a mask, and from the two software event tags.
abbrev pub no_events : Events
no_events = record { software_event = null_sw_event; event_mask = 0 }

abbrev pub of_mask : ℕ → Events
of_mask mask = record { software_event = null_sw_event; event_mask = mask }

abbrev pub oneshot_software_event : Events
oneshot_software_event = record { software_event = oneshot_sw_event; event_mask = 0 }

abbrev pub persistent_software_event : Events
persistent_software_event = record { software_event = persistent_sw_event; event_mask = 0 }

-- `Add(mask)`.
unfoldable pub add : Events → ℕ → Events
add e mask = record e { event_mask = bit_or e.event_mask mask }

-- `operator+=` and `operator+`.
unfoldable pub plus : Events → Events → Events
plus lhs rhs = record lhs { event_mask = bit_or lhs.event_mask rhs.event_mask }

-- `operator-=` and `operator-`.
unfoldable pub minus : Events → Events → Events
minus lhs rhs = record lhs {
  event_mask = bit_and lhs.event_mask (complement mask_bits rhs.event_mask);
}

unfoldable pub consume : Events → Events → Events
consume e ev = record e { event_mask = bit_and e.event_mask (complement mask_bits ev.event_mask) }

unfoldable pub contains : Events → Events → Bool
contains e ev = not (bit_and e.event_mask ev.event_mask == 0)

unfoldable pub union : Events → Events → Events
union e ev = of_mask (bit_or e.event_mask ev.event_mask)

unfoldable pub intersection : Events → Events → Events
intersection e ev = of_mask (bit_and e.event_mask ev.event_mask)

unfoldable pub is_empty : Events → Bool
is_empty e = e.event_mask == 0

-- `HasEvent` takes an event type, which is a mask.
unfoldable pub has_event : Events → ℕ → Bool
has_event e ev = not (bit_and e.event_mask ev == 0)

unfoldable pub has_read_event : Events → Bool
unfolding has_event
has_read_event e = has_event e epollin

unfoldable pub has_write_event : Events → Bool
unfolding has_event
has_write_event e = has_event e epollout

unfoldable pub has_io_event : Events → Bool
unfolding has_read_event has_write_event
has_io_event e = has_read_event e || has_write_event e

unfoldable pub has_software_event : Events → Bool
has_software_event e = elim e.software_event [ null_sw_event ↦ false | _ ↦ true ]

-- `SetEvent`, by which SetReadEvent and SetWriteEvent turn an event type on or off.
unfoldable pub set_event : Events → ℕ → Bool → Events
set_event e ev enable =
    if enable
    then record e { event_mask = bit_or e.event_mask ev }
    else record e { event_mask = bit_and e.event_mask (complement mask_bits ev) }

unfoldable pub get_io_events : Events → Events
get_io_events e = of_mask (bit_and e.event_mask (bit_or epollin epollout))

-- `operator<=>` defaulted: both members are compared.
unfoldable pub eq_events : Events → Events → Bool
eq_events a b = elim a.software_event [
  | null_sw_event ↦ elim b.software_event [
    | null_sw_event ↦ a.event_mask == b.event_mask
    | _ ↦ false
  ]
  | oneshot_sw_event ↦ elim b.software_event [
    | oneshot_sw_event ↦ a.event_mask == b.event_mask
    | _ ↦ false
  ]
  | persistent_sw_event ↦ elim b.software_event [
    | persistent_sw_event ↦ a.event_mask == b.event_mask
    | _ ↦ false
  ]
]
