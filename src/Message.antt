-- ===== src/Message.antt =====
-- messages.go: the frontend and backend messages of the PostgreSQL protocol.
pub mod Kind
pub mod Read
pub mod Write
pub mod Rules
pub mod Query
pub mod Prepare
pub mod Rows
pub mod Copy
pub mod Startup
pub mod Total
pub mod Frames
pub mod Replies
pub mod Sent
pub mod Tests
