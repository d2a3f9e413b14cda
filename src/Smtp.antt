-- ===== src/Smtp.antt =====
-- The mail daemon's SMTP server: daemon/smtpd/smtp. `Protocol` decodes a command line
-- (protocol.go), `Connection` has the state of a conversation and its replies, and
-- `Conversation` the loop that carries it on (both connection.go); `Daemon` is the server around
-- them (daemon/smtpd/smtpd.go).
pub mod Protocol
pub mod Connection
pub mod Conversation
pub mod Daemon
mod Tests
