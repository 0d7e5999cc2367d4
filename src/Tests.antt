-- ===== src/Tests.antt =====
-- Runs of the model on small inputs, and the theorems at concrete inputs.
mod Samples
mod Stores
mod Components
mod Database
mod Requests
mod Services
mod Journeys
mod Loops
mod Messages
mod Applications
