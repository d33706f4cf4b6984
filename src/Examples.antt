-- ===== src/Examples.antt =====
-- The operations at concrete inputs.
mod Codec
mod Buffer
mod Net
mod Comm
mod Pool
mod Serve
mod Reactor
mod Http
mod Hook
mod Rpc
mod Server
mod Dispatch
mod Connection
mod Threads
mod Log
mod Config
mod Locks
mod MySql
