-- ===== src/Tests.antt =====
-- Concrete runs of the modelled code: the theorems applied to a small workspace.
mod Data
mod Graphs
mod Permits
mod Runs
mod Lives
mod Offers
mod Seats
mod Flows
mod Fires
