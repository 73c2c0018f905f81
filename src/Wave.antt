-- ===== src/Wave.antt =====
-- waveform_explorer/src: the waveform data, its file formats and the database over them.
pub mod Signal
pub mod Timeline
pub mod Registry
pub mod Database
pub mod Vcd
