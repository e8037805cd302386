-- ===== src/Examples.antt =====
-- The theorems at concrete inputs.
pub mod Files
pub mod Sessions
pub mod Sockets
pub mod Strings
pub mod Text
pub mod Arrays
pub mod Refs
pub mod Queues
pub mod Dates
pub mod Threads
pub mod Urls
pub mod Digits
pub mod Entries
pub mod Cells
