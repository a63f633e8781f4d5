-- ===== src/Syslog.antt =====
-- The syslog client of src/syslog-win32: priorities and masks, the connection to the logger, and the
-- datagrams that it sends.
pub mod Priority
pub mod System
pub mod Balance
pub mod Logger
pub mod Connection
pub mod Send
