-- ===== src/Exchange.antt =====
-- The client and the server of src/fifo.c together: what one writes into a pipe and the other reads
-- from it.
pub mod Request
pub mod Rendezvous
pub mod Reply
