-- ===== src/Api.antt =====
-- waveform_explorer/src/AgentAPI.cpp: the queries that an agent asks of a waveform.
pub mod Values
pub mod Format
pub mod Query
pub mod Overview
pub mod Reply
pub mod Arguments
pub mod Summary
pub mod Signals
pub mod Edges
pub mod Intervals
pub mod Condition
pub mod History
pub mod Dump
