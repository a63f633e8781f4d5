-- ===== src/Windows.antt =====
-- The implementation for Windows, src/fifo-win.c: the instances of the server's pipe with their
-- completion routines, the server, and the client.
pub mod Balance
pub mod System
pub mod Instance
pub mod Client
pub mod Server
pub mod Exchange
