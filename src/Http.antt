-- ===== src/Http.antt =====
-- HTTP requests: the folder http/.
pub mod Request
pub mod Context
