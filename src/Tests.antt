-- ===== src/Tests.antt =====
-- Runs of the model on concrete inputs, and the theorems at concrete inputs.
mod Media
mod Sending
mod Calls
mod Settings
mod Flows
mod Pages
mod Pace
mod Reports
mod Commands
