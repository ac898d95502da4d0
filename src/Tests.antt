-- ===== src/Tests.antt =====
-- Runs of the modelled operations on small inputs.
mod Containers
mod Analysis
mod Numbers
mod Driver
mod Export
mod Order
mod Polyhedra
mod Semantics
