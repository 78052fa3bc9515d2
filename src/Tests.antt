-- ===== src/Tests.antt =====
-- Runs of the definitions at concrete inputs, and the main theorems applied to such inputs.
mod Codec
mod Log
mod Reads
mod Picks
mod Parts
mod Levels
mod Manifests
mod Merges
mod Names
