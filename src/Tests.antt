-- ===== src/Tests.antt =====
-- Concrete instances of the interfaces, and the theorems applied to them.
mod Reports
mod Simulation
mod Queue
mod Containers
mod Sockets
mod Looping
mod Messages
mod Connections
mod OneFile
mod Exiting
mod Service
mod Arriving
mod Visiting
mod Bystanding
mod Sample
mod Requesting
