-- ===== src/Tests.antt =====
-- Runs at concrete inputs.
mod Export
mod License
mod Api
mod Jobs
mod Events
mod Orchestrate
mod Inventory
mod Cartridges
mod Minting
mod Removal
mod Polled
