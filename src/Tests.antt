-- ===== src/Tests.antt =====
-- Runs of the modelled code on concrete inputs, and each theorem at an input that meets its
-- hypotheses.
mod Tables
mod Rules
mod Commands
mod Compact
mod Fast
mod Sums
