-- ===== src/Pagination.antt =====
-- go-bridge/pagination.go: the byte budget of a page of messages, the duplicate fields of a message,
-- and the pages of a session list.
pub mod Trim
pub mod Compact
pub mod Sessions
pub mod Serve
mod Tests
