-- ===== src/Messages.antt =====
-- The store&forward message processor: toolbox/message_processor_struct.go (`Report`, the reports
-- and their compact form) and toolbox/message_processor.go (`Store`, `Commands`, `Latest`).
pub mod Report
pub mod Store
pub mod Commands
pub mod Latest
mod Tests
