-- ===== src/Net.antt =====
-- flconc/net/base: the timer, the events of a descriptor, the reactor, the addresses and the locks.
pub mod Timer
pub mod FdEvent
pub mod Reactor
pub mod Address
pub mod ScopedLock
