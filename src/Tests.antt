-- ===== src/Tests.antt =====
-- Runs of the model at concrete inputs.
mod Recorder
mod Inputs
mod Witnesses
mod TreeInputs
mod TreeWitnesses
mod TableWitnesses
mod SinkRuns
