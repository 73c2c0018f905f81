-- ===== src/Trace.antt =====
-- The RTL tracer (standalone_trace), which answers questions about the structure of a design.
pub mod Distance
pub mod Hier
pub mod Number
pub mod Cli
pub mod Serve
pub mod Publish
pub mod Endpoint
pub mod Select
pub mod Dedup
pub mod Overlap
pub mod TopK
pub mod Json
pub mod Find
pub mod Query
