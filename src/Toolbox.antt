-- ===== src/Toolbox.antt =====
-- The toolbox: app commands, the filters on their way in and on the way of their results out, and
-- the processor that runs them (toolbox/cmd.go, cmd_input_filter.go, cmd_result_filter.go,
-- cmd_processor.go), text that is dialled (dtmf.go), and HTTP errors (cmd.go).
pub mod Command
pub mod InputFilter
pub mod ResultFilter
pub mod Patterns
pub mod Processor
pub mod Dtmf
pub mod Http
mod Tests
