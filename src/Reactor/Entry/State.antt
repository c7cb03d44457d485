-- ===== src/Reactor/Entry/State.antt =====
-- include/asrt/reactor/epoll_reactor.hpp and common_types.hpp: file descriptors, what the reactor asks of the
-- kernel and of the executor, and struct OperationEntry.
use asrt.Base.{ℕ, Bool, false, Option, none}
use asrt.Base.Int.{ℤ, negsuc}
use asrt.Reactor.Events.{Events, no_events}

-- A file descriptor; the invalid handle is -1.
abbrev pub NativeHandle : Type 0
NativeHandle = ℤ

abbrev pub invalid_native_handle : NativeHandle
invalid_native_handle = negsuc 0

pub data Effect : Type 0 where
  epoll_add epoll_modify : NativeHandle → ℕ → Effect
  epoll_remove close : NativeHandle → Effect
  job_arrival : Effect

pub data EventRegistrationType : Type 0 where
  io_event one_shot_software_event persistent_software_event : EventRegistrationType

pub data EventChangeType : Type 0 where
  add_event remove_event set_event : EventChangeType

-- `H` is the type of handlers; `none` is an empty `std::function`, as a move leaves it.
pub record Entry (H : Type 0) : Type 0 where
  pub io_source : NativeHandle
  pub sequence_number : ℕ
  pub monitored_events : Events
  pub captured_events : Events
  pub handler : Option H
  pub async_operation_ongoing : Bool
  pub valid : Bool
  pub execution_in_progress : Bool
  pub handler_posted : Bool
  pub is_software_event_oneshot : Bool
  pub release_handler_memory : Bool
  pub close_io_source : Bool

module _ (H : Type 0) where
  -- A value-initialised entry.
  abbrev pub fresh_entry : Entry H
  fresh_entry = record {
    io_source = invalid_native_handle;
    sequence_number = 0;
    monitored_events = no_events;
    captured_events = no_events;
    handler = none;
    async_operation_ongoing = false;
    valid = false;
    execution_in_progress = false;
    handler_posted = false;
    is_software_event_oneshot = false;
    release_handler_memory = false;
    close_io_source = false;
  }
