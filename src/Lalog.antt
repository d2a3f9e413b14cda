-- ===== src/Lalog.antt =====
-- The log's buffers: lalog/ring_buffer.go.
pub mod RingBuffer
mod Tests
