-- ===== src/Trace/Serve.antt =====
-- The serve loop: serve/ServeLoop.cc.
pub mod Split
pub mod Session
