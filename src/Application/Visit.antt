-- ===== src/Application/Visit.antt =====
-- src/server.cpp over `reactorRun` of include/reactor.h: a client from its connection to its answer.
pub mod Draining
pub mod Writing
pub mod Coming
pub mod Served
