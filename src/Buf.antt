-- ===== src/Buf.antt =====
-- internal/pkg/buf: the agent's in-memory buffer of messages.
pub mod Queue
pub mod Heap
pub mod Multi
pub mod Expiry
pub mod Tests
pub mod Api
pub mod Buffer
pub mod Ctrl
