-- ===== src/Tcp.antt =====
-- flconc/net/tcp: the byte buffer, the time wheel, the pool of I/O threads, the connections, the
-- client, the acceptor and the server.
pub mod Buffer
pub mod TimeWheel
pub mod IoThread
pub mod Connection
pub mod Client
pub mod Server
pub mod Acceptor
