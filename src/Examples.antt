-- ===== src/Examples.antt =====
-- The properties at concrete inputs.
mod Records
mod Gates
mod Tags
mod Recording
mod Pipeline
mod Recovery
mod Capturing
