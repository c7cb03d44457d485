-- ===== src/Reactor.antt =====
-- include/asrt/reactor: the reactor over edge-triggered epoll. `Entry` is one slot of the handler
-- table, `Table` the search for a slot and registration, `Loop` the event loop over the table.
pub mod Events
pub mod Entry
pub mod Table
pub mod Loop
pub mod TimerOperation
pub mod Tests
