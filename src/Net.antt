-- ===== src/Net.antt =====
-- The reactor and the TCP layer: the files at the repository's root and base/.
pub mod Connection
pub mod Poller
pub mod Connector
pub mod Queue
pub mod Wakeups
pub mod Channel
mod Tests
