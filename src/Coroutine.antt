-- ===== src/Coroutine.antt =====
-- flconc/coroutine with its hooks, and the coroutine mutex of flconc/net/base.
pub mod Memory
pub mod Mutex
pub mod Switch
pub mod Pool
pub mod Hook
