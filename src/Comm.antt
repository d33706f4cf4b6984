-- ===== src/Comm.antt =====
-- flconc/comm: message numbers, strings, the pool of threads, the log, the configuration, and MySQL.
pub mod MsgReq
pub mod StringUtil
pub mod ThreadPool
pub mod Log
pub mod Config
pub mod MySql
