-- ===== src/Examples.antt =====
-- Runs of the code of src/fifo.c, src/fifo-win.c and src/syslog-win32, and of the client program, on
-- concrete systems: the theorems of the library at one input each.
pub mod Systems
mod Reads
mod Visits
mod Workers
mod Clients
mod Servers
mod Exchanges
mod Strings
pub mod WindowsRuns
mod WindowsExchanges
mod SyslogRuns
mod Conversations
